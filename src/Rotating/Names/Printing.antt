-- ===== src/Rotating/Names/Printing.antt =====
-- The digits of an index, and the loop that reads them (include/spdlite/sinks/rotating_file_sink.h).
use spdlite.Base.{
  ℕ, zero, suc, ◌+◌, ◌/◌, ◌%◌, ◌^◌, ◌≤◌, ◌<◌, ◌≡◌, inl, inr, refl, sym, ap, ◌∙◌, arith, [], ◌∷◌,
  Bytes, false, some, ltb, length, Bool-cases, ltb→lt,
}
use native.Mathlib.Nat.{pow-suc}
use spdlite.Rotating.Names.{emit, to_string, max_idx, scan_digits}
use spdlite.Rotating.Names.Cutting.{NoPeriod}

pub emit-NoPeriod : (k n : ℕ) (out : Bytes) → NoPeriod out → NoPeriod (emit k n out)
unfolding emit
emit-NoPeriod zero n out h = h
emit-NoPeriod (suc k) n out h = ground (arith, emit-NoPeriod k (n / 10) ((b'0' + n % 10) ∷ out))

pub length-emit : (k n : ℕ) (out : Bytes) → length out ≤ length (emit k n out)
unfolding emit
length-emit zero n out = omega arith
length-emit (suc k) n out = ground (arith, length-emit k (n / 10) ((b'0' + n % 10) ∷ out))

pub scan_last :
    (n : ℕ) (out : Bytes)
    → n ≤ max_idx
    → scan_digits ((b'0' + n % 10) ∷ out) (n / 10) ≡ scan_digits out n
unfolding scan_digits
scan_last n out h = ground arith

ltb→le : (a b : ℕ) → ltb a b ≡ false → b ≤ a
ltb→le a b h = ground arith

pub ten_or_more : (k n : ℕ) → 10 ≤ n → n < 10 ^ suc k → 0 < k
ten_or_more zero n h lt = absurd (omega arith)
ten_or_more (suc k) n h lt = omega arith

pub scan-emit :
    (k n : ℕ) (out : Bytes)
    → n < 10 ^ k
    → 0 < k
    → n ≤ max_idx
    → scan_digits (emit k n out) 0 ≡ scan_digits out n
unfolding emit
scan-emit zero n out h p fits = absurd (omega arith)
scan-emit (suc k) n out h p fits = elim (Bool-cases (ltb n 10)) [
  | inl small ↦
      let top : n / 10 ≡ 0 = omega (arith, ltb→lt n 10 small) in
      rw small (ap (scan_digits ((b'0' + n % 10) ∷ out)) (sym top) ∙ scan_last n out fits)
  | inr more ↦ rw more (
      scan-emit k (n / 10) ((b'0' + n % 10) ∷ out) (omega (arith, pow-suc 10 k))
        (ten_or_more k n (ltb→le n 10 more) h) (omega arith)
      ∙ scan_last n out fits)
]

pub scan-to_string : (n : ℕ) → n ≤ max_idx → scan_digits (to_string n) 0 ≡ some n
unfolding to_string
scan-to_string n h = scan-emit 20 n [] (omega arith) (omega arith) h ∙ unfold scan_digits in refl

pub to_string-NoPeriod : (n : ℕ) → NoPeriod (to_string n)
unfolding to_string
to_string-NoPeriod n = emit-NoPeriod 20 n [] tt

pub some_digit : (n : ℕ) → 0 < length (to_string n)
unfolding to_string emit
some_digit n = ground (arith, length-emit 19 (n / 10) ((b'0' + n % 10) ∷ []))
