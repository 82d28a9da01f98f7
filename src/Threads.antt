-- ===== src/Threads.antt =====
-- Threads that call operations on one shared object (`logger_impl` in include/spdlite/logger.h). An
-- operation is a sequence of small steps, and other threads may move between any two of them. One
-- that starts with a `std::lock_guard` of the object's mutex waits for the lock and holds it to its
-- end; one without runs whether the lock is taken or not.
pub mod Serial
pub mod Progress
pub mod History
use spdlite.Base.{
  ℕ, ◌<◌, ◌≡◌, ◌≢◌, List, [], ◌∷◌, ◌++◌, Bool, true, false, Option, none, some, ◌==◌, if◌then◌else◌,
}

-- A family of values, changed at one place.
abbrev pub update {ℓ} : {A : Type ℓ} → (ℕ → A) → ℕ → A → ℕ → A
update f i x j = if i == j then x else f j

-- One kind of shared object and the calls that threads make on it. `Shared` is the object with all
-- that its calls reach, `Locals` the local variables of a call, `guards` says whether a call is under
-- a `std::lock_guard`, and `steps` what it does there.
pub record Calls : Type 1 where
  pub Shared : Type 0
  pub Locals : Type 0
  pub Call : Type 0
  pub locals : Call → Locals
  pub guards : Call → Bool
  pub steps : Call → List (Shared × Locals → Shared × Locals)

module _ (K : Calls) where
  abbrev pub Small : Type 0
  Small = K.Shared × K.Locals → K.Shared × K.Locals

  -- `history` are the calls that were begun, with their threads, in order; it is not read by
  -- any step.
  pub record System : Type 0 where
    pub lock : Option ℕ
    pub shared : K.Shared
    pub running : ℕ → Option (List Small × K.Locals)
    pub todo : ℕ → List K.Call
    pub history : List (ℕ × K.Call)

  -- One step of one of `n` threads: a call that guards begins when the lock is free, and takes it.
  pub data Step (n : ℕ) (s : System) : System → Type 0 where
    acquire :
        (i : ℕ) (c : K.Call) (cs : List K.Call)
        → i < n
        → K.guards c ≡ true
        → s.lock ≡ none
        → s.running i ≡ none
        → s.todo i ≡ c ∷ cs
        → Step n s (record s {
          lock = some i;
          running = update s.running i (some (K.steps c, K.locals c));
          todo = update s.todo i cs;
          history = s.history ++ (i, c) ∷ [];
        })
    enter :
        (i : ℕ) (c : K.Call) (cs : List K.Call)
        → i < n
        → K.guards c ≡ false
        → s.running i ≡ none
        → s.todo i ≡ c ∷ cs
        → Step n s (record s {
          running = update s.running i (some (K.steps c, K.locals c));
          todo = update s.todo i cs;
          history = s.history ++ (i, c) ∷ [];
        })
    work :
        (i : ℕ) (f : Small) (fs : List Small) (l : K.Locals)
        → i < n
        → s.running i ≡ some (f ∷ fs, l)
        → Step n s (record s {
          shared = (f (s.shared, l)).0;
          running = update s.running i (some (fs, (f (s.shared, l)).1));
        })
    release :
        (i : ℕ) (l : K.Locals)
        → i < n
        → s.lock ≡ some i
        → s.running i ≡ some ([], l)
        → Step n s (record s { lock = none; running = update s.running i none })
    leave :
        (i : ℕ) (l : K.Locals)
        → i < n
        → s.lock ≢ some i
        → s.running i ≡ some ([], l)
        → Step n s (record s { running = update s.running i none })

  -- All threads before their first call.
  abbrev pub start : K.Shared → (ℕ → List K.Call) → System
  start s programs = record {
    lock = none;
    shared = s;
    running = λ _. none;
    todo = programs;
    history = [];
  }

  pub data Reach (n : ℕ) (s : K.Shared) (programs : ℕ → List K.Call) : System → Type 0 where
    here : Reach n s programs (start s programs)
    next : {t u : System} → Reach n s programs t → Step n t u → Reach n s programs u

  -- What the threads can reach from a state.
  pub data Later (n : ℕ) (t : System) : System → Type 0 where
    now : Later n t t
    and_next : {u v : System} → Later n t u → Step n u v → Later n t v

  -- The rest of a call, run without a break.
  unfoldable pub finish : List Small → K.Shared × K.Locals → K.Shared
  finish [] p = p.0
  finish (f ∷ fs) p = finish fs (f p)

  -- A call from its lock to its release, with no other thread in between.
  unfoldable pub whole : K.Call → K.Shared → K.Shared
  unfolding finish
  whole c s = finish (K.steps c) (s, K.locals c)

  -- Calls one after the other.
  unfoldable pub replay : List (ℕ × K.Call) → K.Shared → K.Shared
  replay [] s = s
  replay ((i, c) ∷ h) s = replay h (whole c s)

  -- The calls of one thread.
  unfoldable pub calls_of : ℕ → List (ℕ × K.Call) → List K.Call
  calls_of i [] = []
  calls_of i ((j, c) ∷ h) = if i == j then c ∷ calls_of i h else calls_of i h
