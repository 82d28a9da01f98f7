-- ===== src/Formatter/Within.antt =====
-- The writes into the cached header, seen in a memory that goes on behind it
-- (include/spdlite/formatter.h).
use spdlite.Base.{
  ℕ, zero, suc, ◌+◌, ◌<◌, ◌≤◌, ◌≡◌, refl, ap, ◌∙◌, arith, [], ◌∷◌, ◌++◌, Bytes, Bool, true, false,
  length, length-set, length-take, set, write_at, take, if◌then◌else◌,
}
use spdlite.Base.Int.{ℤ, eq_ℤ}
use spdlite.Level.{level_width}
use spdlite.Digits.{put2, put3, put4, put6, put9, this_thread_id_log}
use spdlite.Buffer.{MemoryBuf}
use spdlite.Formatter.{
  TimePrecision, none, ms, us, ns, LibC, Tm, Formatter, has_fraction, frac_width, put_date,
  put_time, put_stamp, break_down, rebuild_timestamp, refresh, put_fraction, patch_fraction,
  patch_thread_id, patch_level,
}
use spdlite.Formatter.Layout.{stamp_width}
use spdlite.Formatter.Bounds.{
  Fits, Made, Made-Fits, refresh-Fits, patch_fraction-Fits, patch_thread_id-Fits,
}

-- The header with other bytes behind it in memory.
abbrev pub followed : Formatter → Bytes → Formatter
followed f tail = record f { header = f.header ++ tail }

set-inside : (xs tail : Bytes) (i v : ℕ) → i < length xs → set (xs ++ tail) i v ≡ set xs i v ++ tail
set-inside [] tail i v h = absurd (omega arith)
set-inside (x ∷ xs) tail zero v h = refl
set-inside (x ∷ xs) tail (suc i) v h = ap (λ r. x ∷ r) (set-inside xs tail i v (omega arith))

write_at-inside :
    (vs xs tail : Bytes) (i : ℕ)
    → i + length vs ≤ length xs
    → write_at (xs ++ tail) i vs ≡ write_at xs i vs ++ tail
unfolding write_at
write_at-inside [] xs tail i h = refl
write_at-inside (v ∷ vs) xs tail i h =
    ap (λ r. write_at r (i + 1) vs) (set-inside xs tail i v (omega arith))
    ∙ write_at-inside vs (set xs i v) tail (i + 1) (omega (arith, length-set xs i v))

module _ (tail : Bytes) where
  -- A change of a header of `k` bytes or more that leaves what is behind it.
  record Local (k : ℕ) (change : Bytes → Bytes) : Type 0 where
    pub keeps : (h : Bytes) → k ≤ length h → change (h ++ tail) ≡ change h ++ tail
    pub same : (h : Bytes) → length (change h) ≡ length h

  then_Local : {k : ℕ} {f g : Bytes → Bytes} → Local k f → Local k g → Local k (λ h. g (f h))
  then_Local {f = f} {g = g} a b = record {
    keeps = λ h le. ap g (a.keeps h le) ∙ b.keeps (f h) (omega (arith, a.same h, le));
    same = λ h. b.same (f h) ∙ a.same h;
  }

  set-Local : (k i v : ℕ) → i < k → Local k (λ h. set h i v)
  set-Local k i v lt = record {
    keeps = λ h le. set-inside h tail i v (omega (arith, lt, le));
    same = λ h. length-set h i v;
  }

  put2-Local : (k i : ℕ) (n : ℤ) → i + 2 ≤ k → Local k (λ h. put2 h i n)
  unfolding put2
  put2-Local k i n le =
      then_Local (set-Local k i _ (omega arith)) (set-Local k (i + 1) _ (omega arith))

  put3-Local : (k i : ℕ) (n : ℤ) → i + 3 ≤ k → Local k (λ h. put3 h i n)
  unfolding put3
  put3-Local k i n le =
      then_Local (then_Local (set-Local k i _ (omega arith)) (set-Local k (i + 1) _ (omega arith)))
        (set-Local k (i + 2) _ (omega arith))

  put4-Local : (k i : ℕ) (n : ℤ) → i + 4 ≤ k → Local k (λ h. put4 h i n)
  unfolding put4
  put4-Local k i n le =
      then_Local
        (then_Local
          (then_Local (set-Local k i _ (omega arith)) (set-Local k (i + 1) _ (omega arith)))
          (set-Local k (i + 2) _ (omega arith)))
        (set-Local k (i + 3) _ (omega arith))

  put6-Local : (k i n : ℕ) → i + 6 ≤ k → Local k (λ h. put6 h i n)
  unfolding put6
  put6-Local k i n le =
      then_Local (put3-Local k i _ (omega arith)) (put3-Local k (i + 3) _ (omega arith))

  put9-Local : (k i n : ℕ) → i + 9 ≤ k → Local k (λ h. put9 h i n)
  unfolding put9
  put9-Local k i n le =
      then_Local
        (then_Local (put3-Local k i _ (omega arith)) (put3-Local k (i + 3) _ (omega arith)))
        (put3-Local k (i + 6) _ (omega arith))

  untouched-Local : (k : ℕ) → Local k (λ h. h)
  untouched-Local k = record { keeps = λ h le. refl; same = λ h. refl }

  put_time-Local : (k i : ℕ) (tm : Tm) → i + 8 ≤ k → Local k (λ h. put_time h i tm)
  unfolding put_time
  put_time-Local k i tm le =
      then_Local
        (then_Local (put2-Local k i _ (omega arith)) (put2-Local k (i + 3) _ (omega arith)))
        (put2-Local k (i + 6) _ (omega arith))

  put_date-Local : (k i : ℕ) (tm : Tm) → i + 10 ≤ k → Local k (λ h. put_date h i tm)
  unfolding put_date
  put_date-Local k i tm le =
      then_Local
        (then_Local (put4-Local k i _ (omega arith)) (put2-Local k (i + 5) _ (omega arith)))
        (put2-Local k (i + 8) _ (omega arith))

  put_stamp-Local :
      (k : ℕ) (date : Bool) (tm : Tm)
      → 1 + stamp_width date ≤ k
      → Local k (λ h. put_stamp date h tm)
  unfolding put_stamp
  put_stamp-Local k true tm le =
      then_Local (put_date-Local k 1 tm (omega arith)) (put_time-Local k (1 + 11) tm (omega arith))
  put_stamp-Local k false tm le = put_time-Local k 1 tm (omega arith)

  put_fraction-Local :
      (k : ℕ) (p : TimePrecision) (i : ℕ) (frac : ℤ)
      → (has_fraction p ≡ true → i + frac_width p ≤ k)
      → Local k (λ h. put_fraction p h i frac)
  unfolding put_fraction
  put_fraction-Local k none i frac le = untouched-Local k
  put_fraction-Local k ms i frac le = put3-Local k i _ (le refl)
  put_fraction-Local k us i frac le = put6-Local k i _ (le refl)
  put_fraction-Local k ns i frac le = put9-Local k i _ (le refl)

  put_thread-Local :
      (k : ℕ) (shown : Bool) (i n : ℕ)
      → (shown ≡ true → i + 6 ≤ k)
      → Local k (λ h. if shown then put6 h i n else h)
  put_thread-Local k true i n le = put6-Local k i n (le refl)
  put_thread-Local k false i n le = untouched-Local k

  refresh-followed :
      (c : LibC) (f : Formatter) (secs : ℤ)
      → Fits f
      → refresh c (followed f tail) secs ≡ followed (refresh c f secs) tail
  unfolding refresh rebuild_timestamp
  refresh-followed c f secs fits = by_test (eq_ℤ secs f.last_secs)
    where
      stamped : Bytes → Bytes
      stamped h = put_stamp f.opts.show_date h (break_down c f.opts.utc secs)

      by_test :
          (t : Bool)
          → (if t
              then followed f tail
              else record f { header = stamped (f.header ++ tail); last_secs = secs })
            ≡ followed
                (if t then f else record f { header = stamped f.header; last_secs = secs })
                tail
      by_test true = refl
      by_test false =
          ap (λ h. record f { header = h; last_secs = secs })
            ((put_stamp-Local (length f.header) f.opts.show_date (break_down c f.opts.utc secs)
                fits.stamp).keeps
              f.header (omega arith))

  patch_fraction-followed :
      (f : Formatter) (frac : ℤ)
      → Fits f
      → patch_fraction (followed f tail) frac ≡ followed (patch_fraction f frac) tail
  unfolding patch_fraction
  patch_fraction-followed f frac fits =
      ap (λ h. record f { header = h })
        ((put_fraction-Local (length f.header) f.opts.precision f.frac_offset frac
            fits.fraction).keeps
          f.header (omega arith))

  patch_thread_id-followed :
      (f : Formatter) (raw : ℕ)
      → Fits f
      → patch_thread_id (followed f tail) raw ≡ followed (patch_thread_id f raw) tail
  unfolding patch_thread_id
  patch_thread_id-followed f raw fits =
      ap (λ h. record f { header = h })
        ((put_thread-Local (length f.header) f.opts.show_thread_id f.tid_offset
            (this_thread_id_log raw) fits.thread).keeps
          f.header (omega arith))

  patch_level-followed :
      (f : Formatter) (tag : Bytes)
      → Fits f
      → patch_level (followed f tail) tag ≡ followed (patch_level f tag) tail
  unfolding patch_level
  patch_level-followed f tag fits =
      ap (λ h. record f { header = h })
        (write_at-inside (take level_width tag) f.header tail f.level_offset
          (omega (arith, fits.tag, length-take level_width tag)))

module _ (B : MemoryBuf) where
  -- A formatter that is made, renamed and called in any order writes only inside its header,
  -- whatever the time, the thread, the tag and the C library: with any bytes behind the header in
  -- memory, each of the four steps of a call, the timestamp, the fraction, the thread's id and the
  -- tag, leaves those bytes as they are and makes of the header what it makes of it alone.
  pub stages-followed :
      (f : Formatter) (c : LibC) (secs frac : ℤ) (raw : ℕ) (tag tail : Bytes)
      → Made B f
      → let f1 = refresh c f secs in
        let f2 = patch_fraction f1 frac in
        let f3 = patch_thread_id f2 raw in
        (refresh c (followed f tail) secs ≡ followed f1 tail)
        × (patch_fraction (followed f1 tail) frac ≡ followed f2 tail)
        × (patch_thread_id (followed f2 tail) raw ≡ followed f3 tail)
        × (patch_level (followed f3 tail) tag ≡ followed (patch_level f3 tag) tail)
  stages-followed f c secs frac raw tag tail m =
      let f1 = refresh c f secs in
      let f2 = patch_fraction f1 frac in
      let h = Made-Fits B f m in
      let h1 = refresh-Fits c f secs h in
      let h2 = patch_fraction-Fits f1 frac h1 in
      let h3 = patch_thread_id-Fits f2 raw h2 in
      (
        refresh-followed tail c f secs h,
        patch_fraction-followed tail f1 frac h1,
        patch_thread_id-followed tail f2 raw h2,
        patch_level-followed tail (patch_thread_id f2 raw) tag h3,
      )
