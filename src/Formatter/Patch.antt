-- ===== src/Formatter/Patch.antt =====
-- The patches of the cached header (include/spdlite/formatter.h), one field each.
use spdlite.Base.{
  ℕ, ◌+◌, ◌<◌, ◌≡◌, refl, arith, [], ◌∷◌, ◌++◌, Bytes, length, write_at, set, set-append,
}
use spdlite.Base.Int.{ℤ, pos, negsuc, ◌+ℤ◌, pos_part, quot, rem}
use spdlite.Digits.Decimal.{decimal, put2_lem, put4_lem}
use spdlite.Formatter.{Tm, put_date, put_time}
use spdlite.Digits.{put2, put4, digit_char}
use spdlite.Formatter.Layout.{Stamp, stamp_of, date_text, time_text}
use spdlite.Formatter.Cache.{IsWide}

-- A field of `struct tm` that its column can show.
abbrev pub InField : ℕ → ℤ → Type 0
InField k z = (z ≡ pos (pos_part z)) × (pos_part z < k)

pub record InRange (tm : Tm) : Type 0 where
  pub year : InField 10000 (tm.tm_year +ℤ pos 1900)
  pub month : InField 100 (tm.tm_mon +ℤ pos 1)
  pub day : InField 100 tm.tm_mday
  pub hour : InField 100 tm.tm_hour
  pub minute : InField 100 tm.tm_min
  pub second : InField 100 tm.tm_sec

two : (xs : Bytes) → length xs ≡ 2 → (a : ℕ) × (b : ℕ) × (xs ≡ a ∷ b ∷ [])
two [] h = absurd (omega arith)
two (a ∷ []) h = absurd (omega arith)
two (a ∷ b ∷ []) h = (a, b, refl)
two (a ∷ b ∷ c ∷ xs) h = absurd (omega arith)

four :
    (xs : Bytes) → length xs ≡ 4 → (a : ℕ) × (b : ℕ) × (c : ℕ) × (d : ℕ) × (xs ≡ a ∷ b ∷ c ∷ d ∷ [])
four (a ∷ b ∷ c ∷ d ∷ []) h = (a, b, c, d, refl)
four [] h = absurd (omega arith)
four (a ∷ []) h = absurd (omega arith)
four (a ∷ b ∷ []) h = absurd (omega arith)
four (a ∷ b ∷ c ∷ []) h = absurd (omega arith)
four (a ∷ b ∷ c ∷ d ∷ e ∷ xs) h = absurd (omega arith)

put2_field :
    (h : Bytes) (off : ℕ) (z : ℤ)
    → InField 100 z
    → put2 h off z ≡ write_at h off (decimal 2 (pos_part z))
put2_field h off (pos n) r = put2_lem h off n r.1
put2_field h off (negsuc n) r = cc (r.0)

put4_field :
    (h : Bytes) (off : ℕ) (z : ℤ)
    → InField 10000 z
    → put4 h off z ≡ write_at h off (decimal 4 (pos_part z))
put4_field h off (pos n) r = put4_lem h off n r.1
put4_field h off (negsuc n) r = cc (r.0)

-- A writer of a field that lies behind `pre` does not see `pre`.
put2-append :
    (pre xs : Bytes) (i j : ℕ) (z : ℤ)
    → j ≡ length pre + i
    → put2 (pre ++ xs) j z ≡ pre ++ put2 xs i z
unfolding put2
put2-append pre xs i j z h =
    rw (set-append pre xs i j (digit_char (quot z 10)) h)
      (set-append pre _ (i + 1) (j + 1) _ (omega arith))

put4-append :
    (pre xs : Bytes) (i j : ℕ) (z : ℤ)
    → j ≡ length pre + i
    → put4 (pre ++ xs) j z ≡ pre ++ put4 xs i z
unfolding put4
put4-append pre xs i j z h =
    rw
      (
        set-append pre xs i j (digit_char (quot z 1000)) h,
        set-append pre (set xs i (digit_char (quot z 1000))) (i + 1) (j + 1)
            (digit_char (rem (quot z 100) 10)) (omega arith),
        set-append pre
            (set (set xs i (digit_char (quot z 1000))) (i + 1) (digit_char (rem (quot z 100) 10)))
            (i + 2) (j + 2) (digit_char (rem (quot z 10) 10)) (omega arith),
      )
      (set-append pre _ (i + 3) (j + 3) _ (omega arith))

pub put_time-append :
    (pre xs : Bytes) (tm : Tm) (off : ℕ)
    → off ≡ length pre
    → put_time (pre ++ xs) off tm ≡ pre ++ put_time xs 0 tm
unfolding put_time
put_time-append pre xs tm off h =
    rw
      (
        put2-append pre xs 0 off tm.tm_hour (omega arith),
        put2-append pre (put2 xs 0 tm.tm_hour) 3 (off + 3) tm.tm_min (omega arith),
      )
      (put2-append pre _ 6 (off + 6) tm.tm_sec (omega arith))

pub put_date-append :
    (pre xs : Bytes) (tm : Tm) (off : ℕ)
    → off ≡ length pre
    → put_date (pre ++ xs) off tm ≡ pre ++ put_date xs 0 tm
unfolding put_date
put_date-append pre xs tm off h =
    rw
      (
        put4-append pre xs 0 off (tm.tm_year +ℤ pos 1900) (omega arith),
        put2-append pre (put4 xs 0 (tm.tm_year +ℤ pos 1900)) 5 (off + 5) (tm.tm_mon +ℤ pos 1)
            (omega arith),
      )
      (put2-append pre _ 8 (off + 8) tm.tm_mday (omega arith))

pub put_time_text :
    (rest : Bytes) (s : Stamp) (tm : Tm)
    → IsWide s
    → InRange tm
    → put_time (time_text s ++ rest) 0 tm ≡ time_text (stamp_of tm) ++ rest
unfolding put_time write_at decimal
put_time_text rest s tm w r =
    let (a, b, hour) = two s.hour w.hour in
    let (c, d, minute) = two s.minute w.minute in
    let (e, f, second) = two s.second w.second in
    rw (
      hour,
      minute,
      second,
      put2_field _ _ tm.tm_hour r.hour,
      put2_field _ _ tm.tm_min r.minute,
      put2_field _ _ tm.tm_sec r.second,
    )

pub put_date_text :
    (rest : Bytes) (s : Stamp) (tm : Tm)
    → IsWide s
    → InRange tm
    → put_date (date_text s ++ rest) 0 tm ≡ date_text (stamp_of tm) ++ rest
unfolding put_date write_at decimal
put_date_text rest s tm w r =
    let (a, b, c, d, year) = four s.year w.year in
    let (e, f, month) = two s.month w.month in
    let (g, h, day) = two s.day w.day in
    rw (
      year,
      month,
      day,
      put4_field _ _ (tm.tm_year +ℤ pos 1900) r.year,
      put2_field _ _ (tm.tm_mon +ℤ pos 1) r.month,
      put2_field _ _ tm.tm_mday r.day,
    )
