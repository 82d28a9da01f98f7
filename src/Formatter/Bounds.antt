-- ===== src/Formatter/Bounds.antt =====
-- Where the patches of the cached header write (include/spdlite/formatter.h).
use spdlite.Base.{
  ℕ, ◌+◌, ◌≤◌, ◌≡◌, refl, sym, ap, ◌∙◌, arith, ◌++◌, Bytes, codes, Bool, true, false, length,
  length-append, length-set, length-write_at, take, if◌then◌else◌,
}
use spdlite.Base.Int.{ℤ, eq_ℤ, quot, scale, ◌-ℤ◌}
use spdlite.Base.Exec.{Result, ok, fail, bind}
use spdlite.Level.{Level, level_width, to_string_view}
use spdlite.Digits.{put2, put3, put4, put6, put9}
use spdlite.Buffer.{MemoryBuf}
use spdlite.Formatter.{
  TimePrecision, none, ms, us, ns, FormatOptions, LibC, Tm, Formatter, has_fraction, frac_width,
  formatter, rebuild_header, set_logger_name, put_date, put_time, put_stamp, break_down,
  rebuild_timestamp, refresh, put_fraction, patch_fraction, patch_thread_id, patch_level,
  format_header,
}
use spdlite.Formatter.Layout.{Stamp, stamp_text, stamp_width, tag_offset}
use spdlite.Formatter.Cache.{Shows, rebuild_header-Shows}
use spdlite.Formatter.Fields.{before_tag, at_tag, length-before_tag}

-- The bytes that each patch writes are inside the header.
pub record Fits (f : Formatter) : Type 0 where
  pub stamp : 1 + stamp_width f.opts.show_date ≤ length f.header
  pub fraction :
      has_fraction f.opts.precision ≡ true
      → f.frac_offset + frac_width f.opts.precision ≤ length f.header
  pub thread : f.opts.show_thread_id ≡ true → f.tid_offset + 6 ≤ length f.header
  pub tag : f.level_offset + level_width ≤ length f.header

-- A formatter with another header of the same length.
with_header :
    (f : Formatter) (h : Bytes)
    → length h ≡ length f.header
    → Fits f
    → Fits (record f { header = h })
with_header f h same fits = record {
  stamp = omega (arith, same, fits.stamp);
  fraction = λ e. omega (arith, same, fits.fraction e);
  thread = λ e. omega (arith, same, fits.thread e);
  tag = omega (arith, same, fits.tag);
}

ruleset put_lengths = (length-set, length-write_at)

length-put_stamp : (d : Bool) (h : Bytes) (tm : Tm) → length (put_stamp d h tm) ≡ length h
unfolding put_stamp put_date put_time put2 put4
length-put_stamp true h tm = simp put_lengths
length-put_stamp false h tm = simp put_lengths

length-put_fraction :
    (p : TimePrecision) (h : Bytes) (off : ℕ) (frac : ℤ)
    → length (put_fraction p h off frac) ≡ length h
unfolding put_fraction put3 put6 put9
length-put_fraction none h off frac = refl
length-put_fraction ms h off frac = simp put_lengths
length-put_fraction us h off frac = simp put_lengths
length-put_fraction ns h off frac = simp put_lengths

length-put_thread :
    (t : Bool) (h : Bytes) (off n : ℕ) → length (if t then put6 h off n else h) ≡ length h
unfolding put6 put3
length-put_thread true h off n = simp put_lengths
length-put_thread false h off n = refl

-- The stages of a call, at any time and for any thread.
pub refresh-Fits : (c : LibC) (f : Formatter) (secs : ℤ) → Fits f → Fits (refresh c f secs)
unfolding refresh rebuild_timestamp
refresh-Fits c f secs fits = by_test (eq_ℤ secs f.last_secs)
  where
    later : Fits (record f { last_secs = secs })
    later = record {
      stamp = fits.stamp;
      fraction = fits.fraction;
      thread = fits.thread;
      tag = fits.tag;
    }

    by_test :
        (b : Bool)
        → Fits (if b then f else rebuild_timestamp c (record f { last_secs = secs }) secs)
    by_test true = fits
    by_test false =
        with_header (record f { last_secs = secs }) _
          (length-put_stamp f.opts.show_date f.header (break_down c f.opts.utc secs)) later

pub patch_fraction-Fits : (f : Formatter) (frac : ℤ) → Fits f → Fits (patch_fraction f frac)
unfolding patch_fraction
patch_fraction-Fits f frac =
    with_header f _ (length-put_fraction f.opts.precision f.header f.frac_offset frac)

pub patch_thread_id-Fits : (f : Formatter) (raw : ℕ) → Fits f → Fits (patch_thread_id f raw)
unfolding patch_thread_id
patch_thread_id-Fits f raw =
    with_header f _ (length-put_thread f.opts.show_thread_id f.header f.tid_offset _)

patch_level-Fits : (f : Formatter) (tag : Bytes) → Fits f → Fits (patch_level f tag)
unfolding patch_level
patch_level-Fits f tag =
    with_header f _ (length-write_at (take level_width tag) f.header f.level_offset)

-- A header of the documented shape has room for its fields.
Shows-Fits :
    {name : Bytes} {f : Formatter} {s : Stamp} {digits thread tag : Bytes}
    → Shows name f s digits thread tag
    → Fits f
Shows-Fits {name} {f} {s} {digits} {thread} {tag} k = record {
  stamp = ground (arith, whole, k.level_at);
  fraction = λ e. ground (arith, whole, k.frac_at e, e);
  thread = λ e. ground (arith, whole, k.tid_at e, e);
  tag = omega (arith, whole, k.level_at);
}
  where
    whole : length f.header ≡ tag_offset f.opts name + 5
    whole =
        ap length (k.shape ∙ at_tag f.opts name (stamp_text f.opts.show_date s) digits thread tag)
        ∙ omega (
          arith,
          length-append (before_tag f.opts name (stamp_text f.opts.show_date s) digits thread)
              (tag ++ codes "] "),
          length-append tag (codes "] "),
          length-before_tag k,
          k.length_tag,
        )

rebuild_header-Fits : (f : Formatter) (name : Bytes) → Fits (rebuild_header f name)
rebuild_header-Fits f name = Shows-Fits (rebuild_header-Shows f name)

module _ (B : MemoryBuf) where
  -- The formatters that a program can come to: one is made, renamed, and called at any time.
  pub data Made : Formatter → Type 0 where
    made : (name : Bytes) (o : FormatOptions) → Made (formatter name o)
    renamed : {f : Formatter} → Made f → (name : Bytes) → Made (set_logger_name f name)
    called :
        {f : Formatter}
        → Made f
        → (c : LibC) (time : ℤ) (lvl : Level) (raw : ℕ) (dest : B.State) (next : Formatter)
          (filled : B.State)
        → format_header B c f time lvl raw dest ≡ ok (next, filled)
        → Made next

  format_header-Fits :
      (c : LibC) (f : Formatter) (time : ℤ) (lvl : Level) (raw : ℕ) (dest : B.State)
      (next : Formatter) (filled : B.State)
      → Fits f
      → format_header B c f time lvl raw dest ≡ ok (next, filled)
      → Fits next
  unfolding format_header
  format_header-Fits c f time lvl raw dest next filled fits = by_tag (to_string_view lvl)
    where
      secs : ℤ
      secs = quot time 1000000000

      stage : Formatter
      stage =
          patch_thread_id (patch_fraction (refresh c f secs) (time -ℤ scale secs 1000000000)) raw

      stage-Fits : Fits stage
      stage-Fits = patch_thread_id-Fits _ raw (patch_fraction-Fits _ _ (refresh-Fits c f secs fits))

      next_of : Result (Formatter × B.State) → Formatter
      next_of (ok p) = p.0
      next_of (fail e) = f

      by_tag :
          (r : Result Bytes)
          → bind {B = Formatter × B.State} r
              (λ tag. let f3 = patch_level stage tag in ok (f3, B.append dest f3.header))
            ≡ ok (next, filled)
          → Fits next
      by_tag (ok tag) e = rw (sym (ap next_of e)) (patch_level-Fits stage tag stage-Fits)
      by_tag (fail x) e = cc e

  pub Made-Fits : (f : Formatter) → Made f → Fits f
  unfolding formatter set_logger_name
  Made-Fits f (made name o) = rebuild_header-Fits _ name
  Made-Fits f (renamed {f = g} h name) = rebuild_header-Fits g name
  Made-Fits f (called {f = g} h c time lvl raw dest next filled e) =
      format_header-Fits c g time lvl raw dest next filled (Made-Fits g h) e
