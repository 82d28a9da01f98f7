-- ===== src/Formatter/Widths.antt =====
-- How long a header is (include/spdlite/formatter.h).
use spdlite.Base.{
  ℕ, ◌+◌, ◌/◌, ◌%◌, ◌≤◌, ◌≡◌, ◌≢◌, refl, arith, [], ◌∷◌, Bytes, Bool, true, false, length,
  length-append, if◌then◌else◌,
}
use spdlite.Base.Int.{pos}
use spdlite.Level.{Level, trace, debug, info, warn, err, critical, off, n_levels, level_width}
use spdlite.Level.Order.{tag}
use spdlite.Digits.Decimal.{decimal, length-decimal}
use spdlite.Formatter.{
  TimePrecision, none, ms, us, ns, FormatOptions, LibC, Tm, break_down, has_fraction, frac_width,
}
use spdlite.Formatter.Layout.{
  header_text, stamp_text, stamp_of, stamp_width, fraction_field, fraction_digits, thread_field,
  name_field, tag_offset,
}

stamp_length : (d : Bool) (tm : Tm) → length (stamp_text d (stamp_of tm)) ≡ stamp_width d
stamp_length true tm = simp (length-append, length-decimal) (omega arith)
stamp_length false tm = simp (length-append, length-decimal) (omega arith)

fraction_length :
    (p : TimePrecision) (n : ℕ)
    → length (fraction_field p (fraction_digits p n))
      ≡ (if has_fraction p then 1 + frac_width p else 0)
fraction_length none n = omega arith
fraction_length ms n = simp length-decimal (omega arith)
fraction_length us n = simp length-decimal (omega arith)
fraction_length ns n = simp length-decimal (omega arith)

thread_length : (t : Bool) (n : ℕ) → length (thread_field t (decimal 6 n)) ≡ (if t then 9 else 0)
thread_length true n = simp (length-append, length-decimal) (omega arith)
thread_length false n = omega arith

name_length : (name : Bytes) → length (name_field name) ≤ length name + 3
name_length [] = omega arith
name_length (c ∷ s) = simp length-append (omega arith)

-- The text of a header is as long as the offset of its tag, the tag and two more bytes.
pub length-header_text :
    (c : LibC) (o : FormatOptions) (name : Bytes) (t raw : ℕ) (lvl : Level)
    → length (header_text c o name t (tag lvl) raw) ≡ tag_offset o name + length (tag lvl) + 2
unfolding header_text
length-header_text c o name t raw lvl = simp length-append (
    omega (
      arith,
      stamp_length o.show_date (break_down c o.utc (pos (t / 1000000000))),
      fraction_length o.precision (t % 1000000000),
      thread_length o.show_thread_id (raw % 1000000),
    ))

fraction_most : (p : TimePrecision) → (if has_fraction p then 1 + frac_width p else 0) ≤ 10
fraction_most none = omega arith
fraction_most ms = omega arith
fraction_most us = omega arith
fraction_most ns = omega arith

-- The tag stands in the first 63 bytes behind the name.
pub tag_offset_bound : (o : FormatOptions) (name : Bytes) → tag_offset o name ≤ length name + 50
tag_offset_bound o name = ground (arith, name_length name, fraction_most o.precision)

-- Every level but the sentinel has a tag of three bytes.
pub length-tag : (lvl : Level) → lvl ≢ n_levels → length (tag lvl) ≡ level_width
length-tag trace h = refl
length-tag debug h = refl
length-tag info h = refl
length-tag warn h = refl
length-tag err h = refl
length-tag critical h = refl
length-tag off h = refl
length-tag n_levels h = absurd (h refl)

tag_most : (lvl : Level) → length (tag lvl) ≤ 3
tag_most trace = omega arith
tag_most debug = omega arith
tag_most info = omega arith
tag_most warn = omega arith
tag_most err = omega arith
tag_most critical = omega arith
tag_most off = omega arith
tag_most n_levels = omega arith

-- A header is short.
pub header_bound :
    (c : LibC) (o : FormatOptions) (name : Bytes) (t raw : ℕ) (lvl : Level)
    → length (header_text c o name t (tag lvl) raw) ≤ length name + 70
header_bound c o name t raw lvl =
    omega (arith, length-header_text c o name t raw lvl, tag_offset_bound o name, tag_most lvl)
