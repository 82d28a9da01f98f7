-- ===== src/Digits/Decimal.antt =====
-- Decimal numerals, and the digit writers (include/spdlite/formatter.h) in terms of them.
use spdlite.Base.{
  ℕ, zero, suc, ◌+◌, ◌-◌, ◌*◌, ◌/◌, ◌%◌, ◌^◌, ◌<◌, ◌≡◌, refl, arith, Bytes, [], ◌∷◌, ◌++◌, write_at,
  write_at-append_list, length, length-append,
}
use mathlib.Core.List.{foldl}
use mathlib.Core.Path.{sym}
use native.Mathlib.Nat.{add_assoc, pow-suc}
use spdlite.Base.Int.{pos, to_int, quot, rem}
use spdlite.Digits.{digit_char, put2, put3, put4, put6, put9, this_thread_id_log}

-- `k` decimal digits of `n`, most significant first.
unfoldable pub decimal : ℕ → ℕ → Bytes
decimal zero n = []
decimal (suc k) n = decimal k (n / 10) ++ (b'0' + n % 10) ∷ []

-- The number that digits spell.
abbrev pub value : Bytes → ℕ
value = foldl (λ (n c : ℕ). n * 10 + (c - b'0')) 0

pub length-decimal : (k n : ℕ) → length (decimal k n) ≡ k
unfolding decimal
length-decimal zero n = refl
length-decimal (suc k) n =
    omega
      (arith, length-append (decimal k (n / 10)) ((b'0' + n % 10) ∷ []), length-decimal k (n / 10))

digit_char-pos : (n : ℕ) → n < 10 → digit_char (pos n) ≡ b'0' + n
digit_char-pos n h = ground arith

to_int-pos : (n : ℕ) → n < 1000 → to_int n ≡ pos n
to_int-pos n h = ground arith

two_digits :
    (n : ℕ)
    → n < 100
    → decimal 2 n ≡ digit_char (quot (pos n) 10) ∷ digit_char (rem (pos n) 10) ∷ []
unfolding decimal
two_digits n h = ground arith

pub put2_lem : (h : Bytes) (dst n : ℕ) → n < 100 → put2 h dst (pos n) ≡ write_at h dst (decimal 2 n)
unfolding put2 write_at
put2_lem h dst n lt = rw (two_digits n lt)

three_digits :
    (n : ℕ)
    → n < 1000
    → decimal 3 n
      ≡ digit_char (quot (pos n) 100)
        ∷ digit_char (rem (quot (pos n) 10) 10)
        ∷ digit_char (rem (pos n) 10)
        ∷ []
unfolding decimal
three_digits n h = ground arith

pub put3_lem :
    (h : Bytes) (dst n : ℕ) → n < 1000 → put3 h dst (pos n) ≡ write_at h dst (decimal 3 n)
unfolding put3 write_at
put3_lem h dst n lt = rw (three_digits n lt, add_assoc)

pub quot-pos : (n k : ℕ) → quot (pos n) k ≡ pos (n / k)
quot-pos n k = ground arith

rem-pos : (n k : ℕ) → 0 < k → rem (pos n) k ≡ pos (n % k)
rem-pos n k h = ground arith

last_digit : (n : ℕ) → digit_char (rem (pos n) 10) ≡ b'0' + n % 10
last_digit n = rw (rem-pos n 10 (omega arith)) (digit_char-pos (n % 10) (omega arith))

four_digits :
    (n : ℕ)
    → n < 10000
    → decimal 4 n
      ≡ digit_char (quot (pos n) 1000)
        ∷ digit_char (rem (quot (pos n) 100) 10)
        ∷ digit_char (rem (quot (pos n) 10) 10)
        ∷ digit_char (rem (pos n) 10)
        ∷ []
unfolding decimal
four_digits n h =
    let d3 : digit_char (quot (pos n) 1000) ≡ b'0' + n / 10 / 10 / 10 % 10 =
      rw quot-pos (rw (digit_char-pos (n / 1000) (omega arith)) (omega arith)) in
    let d2 : digit_char (rem (quot (pos n) 100) 10) ≡ b'0' + n / 10 / 10 % 10 =
      rw
        (
          quot-pos n 100,
          rem-pos (n / 100) 10 (omega arith),
          digit_char-pos (n / 100 % 10) (omega arith),
        )
        (omega arith) in
    cc (d3, d2, last_digit (n / 10), last_digit n, quot-pos n 10)

pub put4_lem :
    (h : Bytes) (dst n : ℕ) → n < 10000 → put4 h dst (pos n) ≡ write_at h dst (decimal 4 n)
unfolding put4 write_at
put4_lem h dst n lt = rw (four_digits n lt) (simp add_assoc)

-- The low three digits of a numeral, apart from those above them.
six_digits : (n : ℕ) → decimal 6 n ≡ decimal 3 (n / 1000) ++ decimal 3 (n % 1000)
unfolding decimal
six_digits n =
    let d0 : n % 10 ≡ n % 1000 % 10 = omega arith in
    let d1 : n / 10 % 10 ≡ n % 1000 / 10 % 10 = omega arith in
    let d2 : n / 10 / 10 % 10 ≡ n % 1000 / 10 / 10 % 10 = omega arith in
    let d3 : n / 10 / 10 / 10 ≡ n / 1000 = omega arith in cc (d0, d1, d2, d3)

nine_digits : (n : ℕ) → decimal 9 n ≡ decimal 6 (n / 1000) ++ decimal 3 (n % 1000)
unfolding decimal
nine_digits n =
    let d0 : n % 10 ≡ n % 1000 % 10 = omega arith in
    let d1 : n / 10 % 10 ≡ n % 1000 / 10 % 10 = omega arith in
    let d2 : n / 10 / 10 % 10 ≡ n % 1000 / 10 / 10 % 10 = omega arith in
    let d3 : n / 10 / 10 / 10 ≡ n / 1000 = omega arith in cc (d0, d1, d2, d3)

pub put6_lem : (h : Bytes) (dst n : ℕ) → n < 1000000 → put6 h dst n ≡ write_at h dst (decimal 6 n)
unfolding put6
put6_lem h dst n lt =
    rw
      (
        to_int-pos (n / 1000) (omega arith),
        to_int-pos (n % 1000) (omega arith),
        put3_lem h dst (n / 1000) (omega arith),
        put3_lem (write_at h dst (decimal 3 (n / 1000))) (dst + 3) (n % 1000) (omega arith),
        six_digits n,
      )
      (sym (
        write_at-append_list h dst (decimal 3 (n / 1000)) (decimal 3 (n % 1000)) 3
          (length-decimal 3 (n / 1000))))

-- For a number below 10^9, put9 writes its nine decimal digits at the place it is given and nothing
-- else.
pub put9_lem :
    (h : Bytes) (dst n : ℕ) → n < 1000000000 → put9 h dst n ≡ write_at h dst (decimal 9 n)
unfolding put9
put9_lem h dst n lt =
    let high : n / 1000000 ≡ n / 1000 / 1000 = omega arith in
    rw
      (
        high,
        ← two_halves,
        to_int-pos (n % 1000) (omega arith),
        put6_lem h dst (n / 1000) (omega arith),
        put3_lem (write_at h dst (decimal 6 (n / 1000))) (dst + 6) (n % 1000) (omega arith),
        nine_digits n,
      )
      (sym (
        write_at-append_list h dst (decimal 6 (n / 1000)) (decimal 3 (n % 1000)) 6
          (length-decimal 6 (n / 1000))))
  where
    two_halves :
        put6 h dst (n / 1000)
        ≡ put3 (put3 h dst (to_int (n / 1000 / 1000))) (dst + 3) (to_int (n / 1000 % 1000))
    two_halves = unfold put6 in refl

value-concat :
    (s : Bytes) (c m : ℕ)
    → foldl (λ (n c : ℕ). n * 10 + (c - b'0')) m (s ++ c ∷ [])
      ≡ foldl (λ (n c : ℕ). n * 10 + (c - b'0')) m s * 10 + (c - b'0')
value-concat [] c m = refl
value-concat (d ∷ s) c m = value-concat s c (m * 10 + (d - b'0'))

-- Reading a numeral of `k` digits gives the number back, if it has no more digits.
pub value-decimal : (k n : ℕ) → n < 10 ^ k → value (decimal k n) ≡ n
unfolding decimal
value-decimal zero n h = omega arith
value-decimal (suc k) n h =
    rw value-concat (omega (arith, value-decimal k (n / 10) (omega (arith, pow-suc 10 k))))

-- The thread id fits its field of six digits.
pub this_thread_id_log-lt : (raw : ℕ) → this_thread_id_log raw < 1000000
unfolding this_thread_id_log
this_thread_id_log-lt raw = omega arith

pub this_thread_id_log_lem : (raw : ℕ) → this_thread_id_log raw ≡ raw % 1000000
unfolding this_thread_id_log
this_thread_id_log_lem raw = omega arith
