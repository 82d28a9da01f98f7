-- ===== src/Threads/Serial.antt =====
-- The calls of threads on an object under its mutex, against a sequence of calls.
use spdlite.Base.{
  ℕ, ◌<◌, ◌≡◌, ◌≢◌, refl, sym, ap, ◌∙◌, arith, List, [], ◌∷◌, ◌++◌, append_assoc, append-nil, true,
  false, Option, none, some, ◌==◌, if◌then◌else◌, Bool-cases, inl, inr,
}
use spdlite.Threads.{
  update, Small, Calls, System, Step, acquire, enter, work, release, leave, Reach, here, next,
  finish, whole, replay, calls_of,
}

module _ (K : Calls) (n : ℕ) where
  -- What a call that runs has still to do leads to the state behind all calls of the history.
  pub record Held (s0 : K.Shared) (s : System K) (i : ℕ) : Type 0 where
    pub rest : List (Small K)
    pub local : K.Locals
    pub member : i < n
    pub runs : s.running i ≡ some (rest, local)
    pub leads : finish K rest (s.shared, local) ≡ replay K s.history s0
    pub alone : (j : ℕ) → i ≢ j → s.running j ≡ none

  pub record Free (s0 : K.Shared) (s : System K) : Type 0 where
    pub settled : s.shared ≡ replay K s.history s0
    pub nobody : (j : ℕ) → s.running j ≡ none

  abbrev pub Turn : K.Shared → System K → Option ℕ → Type 0
  Turn s0 s none = Free s0 s
  Turn s0 s (some i) = Held s0 s i

  pub record Inv (s0 : K.Shared) (programs : ℕ → List K.Call) (s : System K) : Type 0 where
    pub turn : Turn s0 s s.lock
    pub order : (i : ℕ) → calls_of K i s.history ++ s.todo i ≡ programs i

  replay-append :
      (h : List (ℕ × K.Call)) (i : ℕ) (c : K.Call) (s : K.Shared)
      → replay K (h ++ (i, c) ∷ []) s ≡ finish K (K.steps c) (replay K h s, K.locals c)
  unfolding replay whole finish
  replay-append [] i c s = refl
  replay-append ((j, o) ∷ h) i c s = replay-append h i c (finish K (K.steps o) (s, K.locals o))

  calls_of-append :
      (i j : ℕ) (h : List (ℕ × K.Call)) (c : K.Call)
      → calls_of K i (h ++ (j, c) ∷ []) ≡ calls_of K i h ++ (if i == j then c ∷ [] else [])
  unfolding calls_of
  calls_of-append i j [] c = ground arith
  calls_of-append i j ((k, o) ∷ h) c = ground (arith, calls_of-append i j h c)

  module _ {s0 : K.Shared} {s : System K} where
    unlocked : (o : Option ℕ) → o ≡ none → Turn s0 s o → Free s0 s
    unlocked none e t = t
    unlocked (some k) e t = absurd (none_some e)
      where
        none_some : some k ≡ none → ⊥
        none_some h = cc h

    -- Only the thread that holds the lock runs.
    pub by_owner :
        (o : Option ℕ) (i : ℕ) (x : List (Small K) × K.Locals)
        → s.running i ≡ some x
        → Turn s0 s o
        → (o ≡ some i) × Held s0 s i
    by_owner none i x e t = absurd (cc (e, t.nobody i))
    by_owner (some k) i x e t = elim (Bool-cases (k == i)) [
      | inl same ↦ (let same' : k ≡ i = ground (arith, same) in (ap some same', rw (sym same') t))
      | inr other ↦
          (let other' : k ≢ i = ground (arith, other) in absurd (cc (e, t.alone i other')))
    ]

    on_lock : (o : Option ℕ) (i : ℕ) → o ≡ some i → Held s0 s i → Turn s0 s o
    on_lock o i e h = rw e h

  abbrev Running : Type 0
  Running = ℕ → Option (List (Small K) × K.Locals)

  update_at : (f : Running) (i : ℕ) (x : Option (List (Small K) × K.Locals)) → update f i x i ≡ x
  update_at f i x = ground arith

  update_off :
      (f : Running) (i j : ℕ) (x : Option (List (Small K) × K.Locals))
      → i ≢ j
      → update f i x j ≡ f j
  update_off f i j x h = ground arith

  unwrap : {x y : List (Small K) × K.Locals} → some x ≡ some y → x ≡ y
  unwrap h = ground arith

  -- Every call takes the lock.
  abbrev pub AllGuard : Type 0
  AllGuard = (c : K.Call) → K.guards c ≡ true

  module _ (guarded : AllGuard) {s0 : K.Shared} {programs : ℕ → List K.Call} where
    Step-Inv : {s t : System K} → Step K n s t → Inv s0 programs s → Inv s0 programs t
    unfolding finish
    Step-Inv {s} (acquire i c cs lt takes free idle e) inv =
        let f = unlocked s.lock free inv.turn in
        record {
          turn = record {
            member = lt;
            rest = K.steps c;
            local = K.locals c;
            runs = update_at s.running i (some (K.steps c, K.locals c));
            leads =
                ap (λ x. finish K (K.steps c) (x, K.locals c)) f.settled
                ∙ sym (replay-append s.history i c s0);
            alone = λ j ne. update_off s.running i j (some (K.steps c, K.locals c)) ne ∙ f.nobody j;
          };
          order = λ j. ordered j;
        }
      where
        ordered :
            (j : ℕ) → calls_of K j (s.history ++ (i, c) ∷ []) ++ update s.todo i cs j ≡ programs j
        ordered j = elim (Bool-cases (i == j)) [
          | inl same ↦
              (let same' : j ≡ i = ground (arith, same) in
                rw (same, calls_of-append j i s.history c)
                  (ground (
                    arith,
                    same',
                    e,
                    inv.order i,
                    append_assoc (calls_of K i s.history) (c ∷ []) cs,
                  )))
          | inr other ↦
              (let other' : (j == i) ≡ false = ground (arith, other) in
                rw
                  (
                    other,
                    calls_of-append j i s.history c,
                    other',
                    append-nil (calls_of K j s.history),
                  )
                  (inv.order j))
        ]
    Step-Inv {s} (enter i c cs lt open_ idle e) inv = absurd (cc (guarded c, open_))
    Step-Inv {s} (work i f fs l lt e) inv =
        let (at, h) = by_owner s.lock i (f ∷ fs, l) e inv.turn in
        let now = unwrap (sym h.runs ∙ e) in
        record {
          turn = on_lock s.lock i at (record {
            member = lt;
            rest = fs;
            local = (f (s.shared, l)).1;
            runs = update_at s.running i (some (fs, (f (s.shared, l)).1));
            leads = ap (λ x. finish K x.0 (s.shared, x.1)) (sym now) ∙ h.leads;
            alone =
                λ j ne. update_off s.running i j (some (fs, (f (s.shared, l)).1)) ne ∙ h.alone j ne;
          });
          order = inv.order;
        }
    Step-Inv {s} (release i l lt holds e) inv =
        let (at, h) = by_owner s.lock i ([], l) e inv.turn in
        let now = unwrap (sym h.runs ∙ e) in
        record {
          turn = record {
            settled = ap (λ x. finish K x.0 (s.shared, x.1)) (sym now) ∙ h.leads;
            nobody = λ j. ground (arith, h.alone j);
          };
          order = inv.order;
        }
    Step-Inv {s} (leave i l lt other e) inv =
        absurd (other (by_owner s.lock i ([], l) e inv.turn).0)

    pub Reach-Inv : {t : System K} → Reach K n s0 programs t → Inv s0 programs t
    unfolding replay calls_of
    Reach-Inv here = record {
      turn = record { settled = refl; nobody = λ j. refl };
      order = λ i. refl;
    }
    Reach-Inv (next r st) = Step-Inv st (Reach-Inv r)

  -- Where every call takes the lock: whenever it is free, the shared object is what the calls leave
  -- that took it so far, one after the other; and each thread's calls are there in its order, the
  -- first that it has to make.
  pub serial :
      AllGuard
      → {s0 : K.Shared} {programs : ℕ → List K.Call} {t : System K} → Reach K n s0 programs t
      → t.lock ≡ none
      → (t.shared ≡ replay K t.history s0)
        × ((i : ℕ) → calls_of K i t.history ++ t.todo i ≡ programs i)
  serial guarded {t = t} r free =
      let inv = Reach-Inv guarded r in ((unlocked t.lock free inv.turn).settled, inv.order)

  -- Two threads are never between a lock and its release together.
  pub mutual_exclusion :
      AllGuard
      → {s0 : K.Shared} {programs : ℕ → List K.Call} {t : System K} → Reach K n s0 programs t
      → (i j : ℕ) (x y : List (Small K) × K.Locals) → t.running i ≡ some x
      → t.running j ≡ some y
      → i ≡ j
  mutual_exclusion guarded {t = t} r i j x y at_i at_j =
      let inv = Reach-Inv guarded r in
      ground (arith, (by_owner t.lock i x at_i inv.turn).0, (by_owner t.lock j y at_j inv.turn).0)
