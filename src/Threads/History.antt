-- ===== src/Threads/History.antt =====
-- The calls that took the lock, in a system of threads: what holds of all calls that the threads
-- are to make holds of them.
use spdlite.Base.{ℕ, ◌≡◌, arith, List, [], ◌∷◌, ◌++◌, Bool, true, false, ◌==◌, if◌then◌else◌}
use spdlite.Threads.{Calls, calls_of}

module _ (K : Calls) (P : K.Call → Type 0) where
  abbrev pub Every : List K.Call → Type 0
  Every [] = Unit
  Every (c ∷ cs) = P c × Every cs

  abbrev pub EveryMade : List (ℕ × K.Call) → Type 0
  EveryMade [] = Unit
  EveryMade ((i, c) ∷ h) = P c × EveryMade h

  front-Every : (xs ys : List K.Call) → Every (xs ++ ys) → Every xs
  front-Every [] ys p = tt
  front-Every (x ∷ xs) ys (px, p) = (px, front-Every xs ys p)

  head-Every :
      (b : Bool) (x : K.Call) (xs : List K.Call) → b ≡ true → Every (if b then x ∷ xs else xs) → P x
  head-Every true x xs e p = p.0
  head-Every false x xs e p = ground (arith, e)

  tail-Every :
      (b : Bool) (x : K.Call) (xs : List K.Call) → Every (if b then x ∷ xs else xs) → Every xs
  tail-Every true x xs p = p.1
  tail-Every false x xs p = p

  calls_of-EveryMade : (h : List (ℕ × K.Call)) → ((i : ℕ) → Every (calls_of K i h)) → EveryMade h
  unfolding calls_of
  calls_of-EveryMade [] p = tt
  calls_of-EveryMade ((j, x) ∷ h) p = (
    head-Every (j == j) x (calls_of K j h) (ground arith) (p j),
    calls_of-EveryMade h (λ i. tail-Every (i == j) x (calls_of K i h) (p i)),
  )

  pub order-EveryMade :
      (h : List (ℕ × K.Call)) (todo programs : ℕ → List K.Call)
      → ((i : ℕ) → calls_of K i h ++ todo i ≡ programs i)
      → ((i : ℕ) → Every (programs i))
      → EveryMade h
  order-EveryMade h todo programs order p =
      calls_of-EveryMade h (λ i. front-Every (calls_of K i h) (todo i) (rw (order i) (p i)))
