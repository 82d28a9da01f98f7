-- ===== src/Formatter/Steps.antt =====
-- The steps of `format_header` behind the refresh: fraction, thread id and level.
use spdlite.Base.{
  ℕ, ◌/◌, ◌%◌, ◌^◌, ◌<◌, ◌≡◌, refl, ap, sym, ◌∙◌, arith, [], Bytes, Bool, true, false, length,
  if◌then◌else◌, write_at, take, take_all,
}
use spdlite.Base.Int.{pos}
use spdlite.Level.{level_width}
use spdlite.Level.Order.{tag}
use spdlite.Digits.{put6, this_thread_id_log}
use spdlite.Digits.Decimal.{
  decimal, put3_lem, put6_lem, put9_lem, length-decimal, this_thread_id_log-lt,
  this_thread_id_log_lem, quot-pos,
}
use spdlite.Formatter.{
  TimePrecision, none, ms, us, ns, FormatOptions, Formatter, has_fraction, frac_width, put_fraction,
  patch_fraction, patch_thread_id, patch_level,
}
use spdlite.Formatter.Layout.{Stamp, stamp_text, fraction_digits, render}
use spdlite.Formatter.Cache.{Shows}
use spdlite.Formatter.Fields.{write_fraction, write_thread, write_tag, no_thread}

length-fraction_digits :
    (p : TimePrecision) (frac : ℕ) → length (fraction_digits p frac) ≡ frac_width p
length-fraction_digits none frac = refl
length-fraction_digits ms frac = length-decimal 3 (frac / 1000000)
length-fraction_digits us frac = length-decimal 6 (frac / 1000)
length-fraction_digits ns frac = length-decimal 9 frac

-- The `switch` writes the digits that the precision asks for.
put_fraction_lem :
    (p : TimePrecision) (h : Bytes) (off frac : ℕ)
    → frac < 1000000000
    → put_fraction p h off (pos frac) ≡ write_at h off (fraction_digits p frac)
unfolding put_fraction write_at
put_fraction_lem none h off frac lt = refl
put_fraction_lem ms h off frac lt = rw quot-pos (put3_lem h off (frac / 1000000) (omega arith))
put_fraction_lem us h off frac lt =
    let small : frac / 1000 % 2 ^ 64 ≡ frac / 1000 = omega arith in
    rw (quot-pos, small) (put6_lem h off (frac / 1000) (omega arith))
put_fraction_lem ns h off frac lt =
    let small : frac % 2 ^ 64 ≡ frac = omega arith in rw small (put9_lem h off frac lt)

no_digits : (p : TimePrecision) (frac : ℕ) → has_fraction p ≡ false → fraction_digits p frac ≡ []
no_digits none frac h = refl
no_digits ms frac h = cc
no_digits us frac h = cc
no_digits ns frac h = cc

no_fraction :
    (o : FormatOptions) (name stamp d e thread tag : Bytes)
    → has_fraction o.precision ≡ false
    → render o name stamp d thread tag ≡ render o name stamp e thread tag
no_fraction o name stamp d e thread tag h = rw h

module _ {name : Bytes} {f : Formatter} {s : Stamp} {digits thread tag : Bytes}
    (k : Shows name f s digits thread tag) where
  abbrev stamp : Bytes
  stamp = stamp_text f.opts.show_date s

  fraction_shape :
      (frac : ℕ) (b : Bool)
      → has_fraction f.opts.precision ≡ b
      → write_at f.header f.frac_offset (fraction_digits f.opts.precision frac)
        ≡ render f.opts name stamp (fraction_digits f.opts.precision frac) thread tag
  unfolding write_at
  fraction_shape frac true h =
      write_fraction k (fraction_digits f.opts.precision frac) h
        (length-fraction_digits f.opts.precision frac)
  fraction_shape frac false h =
      ap (λ d. write_at f.header f.frac_offset d) (no_digits f.opts.precision frac h)
      ∙ k.shape
      ∙ no_fraction f.opts name stamp digits _ thread tag h

  pub patch_fraction-Shows :
      (frac : ℕ)
      → frac < 1000000000
      → Shows name
          (patch_fraction f (pos frac))
          s
          (fraction_digits f.opts.precision frac)
          thread
          tag
  unfolding patch_fraction
  patch_fraction-Shows frac lt = record {
    shape =
        put_fraction_lem f.opts.precision f.header f.frac_offset frac lt
        ∙ fraction_shape frac (has_fraction f.opts.precision) refl;
    wide = k.wide;
    length_digits = length-fraction_digits f.opts.precision frac;
    length_thread = k.length_thread;
    length_tag = k.length_tag;
    frac_at = k.frac_at;
    tid_at = k.tid_at;
    level_at = k.level_at;
  }

  thread_shape :
      (raw : ℕ) (b : Bool)
      → f.opts.show_thread_id ≡ b
      → (if b then put6 f.header f.tid_offset (this_thread_id_log raw) else f.header)
        ≡ render f.opts name stamp digits (decimal 6 (raw % 1000000)) tag
  thread_shape raw true h =
      put6_lem f.header f.tid_offset (this_thread_id_log raw) (this_thread_id_log-lt raw)
      ∙ ap (λ n. write_at f.header f.tid_offset (decimal 6 n)) (this_thread_id_log_lem raw)
      ∙ write_thread k (decimal 6 (raw % 1000000)) h (length-decimal 6 (raw % 1000000))
  thread_shape raw false h = k.shape ∙ no_thread f.opts name stamp digits thread _ tag h

  pub patch_level-Shows :
      (new : Bytes) → length new ≡ level_width → Shows name (patch_level f new) s digits thread new
  unfolding patch_level
  patch_level-Shows new h = record {
    shape =
        ap (λ t. write_at f.header f.level_offset t) (ap (λ n. take n new) (sym h) ∙ take_all new)
        ∙ write_tag k new h;
    wide = k.wide;
    length_digits = k.length_digits;
    length_thread = k.length_thread;
    length_tag = h;
    frac_at = k.frac_at;
    tid_at = k.tid_at;
    level_at = k.level_at;
  }

  pub patch_thread_id-Shows :
      (raw : ℕ) → Shows name (patch_thread_id f raw) s digits (decimal 6 (raw % 1000000)) tag
  unfolding patch_thread_id
  patch_thread_id-Shows raw = record {
    shape = thread_shape raw f.opts.show_thread_id refl;
    wide = k.wide;
    length_digits = k.length_digits;
    length_thread = length-decimal 6 (raw % 1000000);
    length_tag = k.length_tag;
    frac_at = k.frac_at;
    tid_at = k.tid_at;
    level_at = k.level_at;
  }
