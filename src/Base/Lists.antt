-- ===== src/Base/Lists.antt =====
-- Lists measured and indexed by native numbers, under the library's names, and writes into them.
use Prim.Native.Nat.{ℕ, zero, suc, ◌+◌, ◌-◌, ◌≤◌, min}
use mathlib.Core.Path.{◌≡◌, refl, ap, sym, ◌∙◌}
use mathlib.Core.List.{List, [], ◌∷◌, ◌++◌}
use mathlib.Core.Option.{Option, none, some}
use native.Mathlib.Omega.{arith}
use spdlite.Base.Boolean.{ltb, if◌then◌else◌}

module _ {ℓ} {A : Type ℓ} where
  abbrev pub length : List A → ℕ
  length [] = 0
  length (x ∷ xs) = suc (length xs)

  abbrev pub get_elem? : List A → ℕ → Option A
  get_elem? [] i = none
  get_elem? (x ∷ xs) zero = some x
  get_elem? (x ∷ xs) (suc i) = get_elem? xs i

  abbrev pub take : ℕ → List A → List A
  take zero xs = []
  take (suc n) [] = []
  take (suc n) (x ∷ xs) = x ∷ take n xs

  abbrev pub drop : ℕ → List A → List A
  drop zero xs = xs
  drop (suc n) [] = []
  drop (suc n) (x ∷ xs) = drop n xs

  abbrev pub replicate : ℕ → A → List A
  replicate zero a = []
  replicate (suc n) a = a ∷ replicate n a

  -- A write out of bounds changes nothing.
  abbrev pub set : List A → ℕ → A → List A
  set [] i v = []
  set (x ∷ xs) zero v = v ∷ xs
  set (x ∷ xs) (suc i) v = x ∷ set xs i v

  pub length-append : (xs ys : List A) → length (xs ++ ys) ≡ length xs + length ys
  length-append [] ys = omega arith
  length-append (x ∷ xs) ys = omega (arith, length-append xs ys)

  pub length-replicate : (n : ℕ) (a : A) → length (replicate n a) ≡ n
  length-replicate zero a = refl
  length-replicate (suc n) a = ap suc (length-replicate n a)

module _ {ℓ} {A : Type ℓ} where
  -- `memcpy(xs + i, vs, n)`: the bytes `vs` go to the places from `i` on.
  unfoldable pub write_at : List A → ℕ → List A → List A
  write_at xs i [] = xs
  write_at xs i (v ∷ vs) = write_at (set xs i v) (i + 1) vs

  pub length-set : (xs : List A) (i : ℕ) (v : A) → length (set xs i v) ≡ length xs
  length-set [] i v = refl
  length-set (x ∷ xs) zero v = refl
  length-set (x ∷ xs) (suc i) v = ap suc (length-set xs i v)

  pub set_self : (xs : List A) (i : ℕ) (x : A) → get_elem? xs i ≡ some x → set xs i x ≡ xs
  set_self [] i x h = refl
  set_self (y ∷ xs) zero x h = ground (arith, h)
  set_self (y ∷ xs) (suc i) x h = ap (λ r. y ∷ r) (set_self xs i x h)

  pub get_elem?-set_self :
      (xs : List A) (i : ℕ) (x y : A) → get_elem? xs i ≡ some x → get_elem? (set xs i y) i ≡ some y
  get_elem?-set_self [] i x y h = ground (arith, h)
  get_elem?-set_self (z ∷ xs) zero x y h = refl
  get_elem?-set_self (z ∷ xs) (suc i) x y h = get_elem?-set_self xs i x y h

  pub set-set : (xs : List A) (i : ℕ) (x y : A) → set (set xs i x) i y ≡ set xs i y
  set-set [] i x y = refl
  set-set (z ∷ xs) zero x y = refl
  set-set (z ∷ xs) (suc i) x y = ap (λ r. z ∷ r) (set-set xs i x y)

  pub set-append :
      (pre xs : List A) (i j : ℕ) (v : A)
      → j ≡ length pre + i
      → set (pre ++ xs) j v ≡ pre ++ set xs i v
  set-append [] xs i j v h = ap (λ k. set xs k v) (omega arith)
  set-append (x ∷ pre) xs i zero v h = absurd (omega arith)
  set-append (x ∷ pre) xs i (suc j) v h = ap (λ r. x ∷ r) (set-append pre xs i j v (omega arith))

  pub take_all : (xs : List A) → take (length xs) xs ≡ xs
  take_all [] = refl
  take_all (x ∷ xs) = ap (λ r. x ∷ r) (take_all xs)

  pub take-append : (pre xs : List A) (n : ℕ) → n ≡ length pre → take n (pre ++ xs) ≡ pre
  take-append [] xs zero h = refl
  take-append [] xs (suc n) h = absurd (omega arith)
  take-append (x ∷ pre) xs zero h = absurd (omega arith)
  take-append (x ∷ pre) xs (suc n) h = ap (λ r. x ∷ r) (take-append pre xs n (omega arith))

  pub drop-append : (pre xs : List A) (n : ℕ) → n ≡ length pre → drop n (pre ++ xs) ≡ xs
  drop-append [] xs zero h = refl
  drop-append [] xs (suc n) h = absurd (omega arith)
  drop-append (x ∷ pre) xs zero h = absurd (omega arith)
  drop-append (x ∷ pre) xs (suc n) h = drop-append pre xs n (omega arith)

  pub take-append-drop : (n : ℕ) (xs : List A) → take n xs ++ drop n xs ≡ xs
  take-append-drop zero xs = refl
  take-append-drop (suc n) [] = refl
  take-append-drop (suc n) (x ∷ xs) = ap (λ r. x ∷ r) (take-append-drop n xs)

  drop_nil : (m : ℕ) → drop {A = A} m [] ≡ []
  drop_nil zero = refl
  drop_nil (suc m) = refl

  pub drop-drop : (m n : ℕ) (xs : List A) → drop m (drop n xs) ≡ drop (n + m) xs
  drop-drop m zero xs = ap (λ k. drop k xs) (omega arith)
  drop-drop m (suc n) [] = drop_nil m ∙ sym (drop_nil (suc n + m))
  drop-drop m (suc n) (x ∷ xs) =
      let e : suc (n + m) ≡ suc n + m = omega arith in
      drop-drop m n xs ∙ ap (λ k. drop k (x ∷ xs)) e

  pub length-take : (n : ℕ) (xs : List A) → length (take n xs) ≡ min n (length xs)
  length-take zero xs = omega arith
  length-take (suc n) [] = omega arith
  length-take (suc n) (x ∷ xs) = omega (arith, length-take n xs)

  pub length-drop : (n : ℕ) (xs : List A) → length (drop n xs) ≡ length xs - n
  length-drop zero xs = omega arith
  length-drop (suc n) [] = omega arith
  length-drop (suc n) (x ∷ xs) = omega (arith, length-drop n xs)

module _ {ℓ} {A : Type ℓ} where
  pub length-write_at : (vs xs : List A) (i : ℕ) → length (write_at xs i vs) ≡ length xs
  unfolding write_at
  length-write_at [] xs i = refl
  length-write_at (v ∷ vs) xs i = length-write_at vs (set xs i v) (i + 1) ∙ length-set xs i v

  -- Below the place that is written, a write is seen past.
  pub write_at-append :
      (vs pre xs : List A) (i j : ℕ)
      → j ≡ length pre + i
      → write_at (pre ++ xs) j vs ≡ pre ++ write_at xs i vs
  unfolding write_at
  write_at-append [] pre xs i j h = refl
  write_at-append (v ∷ vs) pre xs i j h =
      rw (set-append pre xs i j v h)
        (write_at-append vs pre (set xs i v) (i + 1) (j + 1) (omega arith))

  pub write_at-zero :
      (vs old post : List A) → length old ≡ length vs → write_at (old ++ post) 0 vs ≡ vs ++ post
  unfolding write_at
  write_at-zero [] [] post h = refl
  write_at-zero [] (o ∷ old) post h = absurd (omega arith)
  write_at-zero (v ∷ vs) [] post h = absurd (omega arith)
  write_at-zero (v ∷ vs) (o ∷ old) post h =
      write_at-append vs (v ∷ []) (old ++ post) 0 (0 + 1) (omega arith)
      ∙ ap (λ r. v ∷ r) (write_at-zero vs old post (omega arith))

  pub get_elem?-take :
      (n : ℕ) (xs : List A) (i : ℕ)
      → get_elem? (take n xs) i ≡ (if ltb i n then get_elem? xs i else none)
  get_elem?-take zero xs i = ground arith
  get_elem?-take (suc n) [] i = ground arith
  get_elem?-take (suc n) (x ∷ xs) zero = ground arith
  get_elem?-take (suc n) (x ∷ xs) (suc i) = ground (arith, get_elem?-take n xs i)

  pub get_elem?-eq-none : (xs : List A) (i : ℕ) → length xs ≤ i → get_elem? xs i ≡ none
  get_elem?-eq-none [] i h = refl
  get_elem?-eq-none (x ∷ xs) zero h = absurd (omega arith)
  get_elem?-eq-none (x ∷ xs) (suc i) h = get_elem?-eq-none xs i (omega arith)

  -- What was put at the end stands at the end.
  pub get_elem?-append : (xs : List A) (x : A) → get_elem? (xs ++ x ∷ []) (length xs) ≡ some x
  get_elem?-append [] x = refl
  get_elem?-append (y ∷ xs) x = get_elem?-append xs x

  -- Two writes side by side are one.
  pub write_at-append_list :
      (xs : List A) (i : ℕ) (us vs : List A) (n : ℕ)
      → length us ≡ n
      → write_at xs i (us ++ vs) ≡ write_at (write_at xs i us) (i + n) vs
  unfolding write_at
  write_at-append_list xs i [] vs n h = ap (λ k. write_at xs k vs) (omega arith)
  write_at-append_list xs i (u ∷ us) vs zero h = absurd (omega arith)
  write_at-append_list xs i (u ∷ us) vs (suc n) h =
      write_at-append_list (set xs i u) (i + 1) us vs n (omega arith)
      ∙ ap (λ k. write_at (write_at (set xs i u) (i + 1) us) k vs) (omega arith)

  -- A write over a part of the same size replaces that part.
  pub write_at-part :
      (pre old post vs : List A) (i : ℕ)
      → i ≡ length pre
      → length old ≡ length vs
      → write_at (pre ++ (old ++ post)) i vs ≡ pre ++ (vs ++ post)
  write_at-part pre old post vs i h same =
      write_at-append vs pre (old ++ post) 0 i (omega arith)
      ∙ ap (λ r. pre ++ r) (write_at-zero vs old post same)
