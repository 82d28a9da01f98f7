-- ===== src/Threads/Progress.antt =====
-- Progress of threads that share an object under its mutex.
use spdlite.Base.{
  ℕ, zero, suc, ◌+◌, ◌<◌, ◌≡◌, ◌≢◌, ◌⊎◌, refl, ap, arith, List, [], ◌∷◌, Option, none, some, ◌==◌,
  Bool-cases, inl, inr, length,
}
use spdlite.Threads.{
  Small, Calls, System, Step, acquire, enter, work, release, leave, Reach, next, Later, now,
  and_next,
}
use spdlite.Threads.Serial.{Turn, Reach-Inv, AllGuard}

module _ (K : Calls) (n : ℕ) where
  -- All calls are made.
  abbrev pub Finished : System K → Type 0
  Finished t = (i : ℕ) → i < n → (t.running i ≡ none) × (t.todo i ≡ [])

  step-Later : {t u v : System K} → Step K n t u → Later K n u v → Later K n t v
  step-Later st now = and_next now st
  step-Later st (and_next l st') = and_next (step-Later st l) st'

  -- A thread below `k` that has a call to make, or none.
  waiting :
      (t : System K) (k : ℕ)
      → ((i : ℕ) × (i < k) × (c : K.Call) × (cs : List K.Call) × (t.todo i ≡ c ∷ cs))
        ⊎ ((i : ℕ) → i < k → t.todo i ≡ [])
  waiting t zero = inr (λ i h. absurd (omega arith))
  waiting t (suc k) = elim (waiting t k) [
    | inl (i, lt, c, cs, w) ↦ inl (i, omega arith, c, cs, w)
    | inr quiet ↦ look (t.todo k) refl quiet
  ]
    where
      look :
          (l : List K.Call)
          → t.todo k ≡ l
          → ((i : ℕ) → i < k → t.todo i ≡ [])
          → ((i : ℕ) × (i < suc k) × (c : K.Call) × (cs : List K.Call) × (t.todo i ≡ c ∷ cs))
            ⊎ ((i : ℕ) → i < suc k → t.todo i ≡ [])
      look [] e quiet = inr (λ i h. ground (arith, quiet i, e))
      look (c ∷ cs) e quiet = inl (k, omega arith, c, cs, e)

  -- The steps that are left, of one thread and of the threads below `k`.
  cost : List K.Call → ℕ
  cost [] = 0
  cost (c ∷ cs) = 2 + length (K.steps c) + cost cs

  rest_of : Option (List (Small K) × K.Locals) → ℕ
  rest_of none = 0
  rest_of (some (fs, l)) = suc (length fs)

  total : (ℕ → ℕ) → ℕ → ℕ
  total w zero = 0
  total w (suc k) = total w k + w k

  total_same : (v w : ℕ → ℕ) (k : ℕ) → ((j : ℕ) → j < k → v j ≡ w j) → total v k ≡ total w k
  unfolding total
  total_same v w zero h = refl
  total_same v w (suc k) h =
      omega (arith, total_same v w k (λ j lt. h j (omega arith)), h k (omega arith))

  total_less :
      (v w : ℕ → ℕ) (i k : ℕ)
      → i < k
      → v i < w i
      → ((j : ℕ) → i ≢ j → v j ≡ w j)
      → total v k < total w k
  unfolding total
  total_less v w i zero lt less same = absurd (omega arith)
  total_less v w i (suc k) lt less same = elim (Bool-cases (i == k)) [
    | inl last ↦
        (let e : i ≡ k = ground (arith, last) in
          omega (arith, ap v e, ap w e, total_same v w k (λ j below. same j (omega arith))))
    | inr before ↦
        (let ne : i ≢ k = ground (arith, before) in
          omega (arith, same k ne, total_less v w i k (omega arith) less same))
  ]

  abbrev left_of : System K → ℕ → ℕ
  left_of t i = cost (t.todo i) + rest_of (t.running i)

  pub steps_left : System K → ℕ
  unfolding total cost rest_of
  steps_left t = total (left_of t) n

  -- Each step leaves fewer: no run goes on for ever, whatever the order of the threads.
  pub Step-steps_left : {t u : System K} → Step K n t u → steps_left u < steps_left t
  unfolding steps_left cost rest_of
  Step-steps_left {t} (acquire i c cs lt takes free idle e) =
      total_less _ _ i n lt (ground arith) (λ j ne. ground (arith, ne))
  Step-steps_left {t} (enter i c cs lt open_ idle e) =
      total_less _ _ i n lt (ground arith) (λ j ne. ground (arith, ne))
  Step-steps_left {t} (work i f fs l lt e) =
      total_less _ _ i n lt (ground arith) (λ j ne. ground (arith, ne))
  Step-steps_left {t} (release i l lt holds e) =
      total_less _ _ i n lt (ground arith) (λ j ne. ground (arith, ne))
  Step-steps_left {t} (leave i l lt other e) =
      total_less _ _ i n lt (ground arith) (λ j ne. ground (arith, ne))

  module _ (guarded : AllGuard K n) {s0 : K.Shared} {programs : ℕ → List K.Call} where
    -- No deadlock: as long as a call is to be made, some thread can move.
    pub progress :
        {t : System K} → Reach K n s0 programs t → ((u : System K) × Step K n t u) ⊎ Finished t
    progress {t} r = by_lock t.lock refl (Reach-Inv K n guarded r).turn
      where
        by_held :
            (i : ℕ) (lt : i < n) (rest : List (Small K)) (l : K.Locals)
            → t.lock ≡ some i
            → t.running i ≡ some (rest, l)
            → (u : System K) × Step K n t u
        by_held i lt [] l holds e = (_, release i l lt holds e)
        by_held i lt (f ∷ fs) l holds e = (_, work i f fs l lt e)

        by_lock :
            (o : Option ℕ)
            → t.lock ≡ o
            → Turn K n s0 t o
            → ((u : System K) × Step K n t u) ⊎ Finished t
        by_lock (some i) e h = inl (by_held i h.member h.rest h.local e h.runs)
        by_lock none e f = elim (waiting t n) [
          | inl (i, lt, c, cs, w) ↦ inl (_, acquire i c cs lt (guarded c) e (f.nobody i) w)
          | inr quiet ↦ inr (λ i lt. (f.nobody i, quiet i lt))
        ]

    ends :
        (k : ℕ) (t : System K)
        → steps_left t < k
        → Reach K n s0 programs t
        → (u : System K) × Reach K n s0 programs u × Later K n t u × Finished u
    ends zero t lt r = absurd (omega arith)
    ends (suc k) t lt r = elim (progress r) [
      | inl (u, st) ↦
          let (v, reached, later, done) =
            ends k u (omega (arith, Step-steps_left st)) (next r st) in
          (v, reached, step-Later st later, done)
      | inr done ↦ (t, r, now, done)
    ]

    -- From every state that is reached, a state is reached where all calls are made.
    pub all_calls_made :
        {t : System K}
        → Reach K n s0 programs t
        → (u : System K) × Reach K n s0 programs u × Later K n t u × Finished u
    all_calls_made {t} r = ends (suc (steps_left t)) t (omega arith) r

    -- Where all calls are made the lock is free.
    pub Finished-free : {t : System K} → Reach K n s0 programs t → Finished t → t.lock ≡ none
    Finished-free {t} r done = by_lock t.lock refl (Reach-Inv K n guarded r).turn
      where
        by_lock : (o : Option ℕ) → t.lock ≡ o → Turn K n s0 t o → o ≡ none
        by_lock none e f = refl
        by_lock (some i) e h = absurd (cc (h.runs, (done i h.member).0))
