-- ===== src/Formatter/Fields.antt =====
-- The header as a field between what stands before it and behind it, and each patch as a
-- replacement of one field.
use spdlite.Base.{
  ◌≡◌, refl, ap, sym, ◌∙◌, arith, [], ◌∷◌, ◌++◌, append_assoc, Bytes, codes, Bool, true, false,
  length, length-append, write_at, write_at-part,
}
use spdlite.Base.Int.{ℤ}
use spdlite.Digits.Decimal.{length-decimal}
use spdlite.Formatter.{
  FormatOptions, Tm, LibC, Formatter, has_fraction, frac_width, break_down, put_stamp,
  rebuild_timestamp,
}
use spdlite.Formatter.Layout.{
  Stamp, stamp_of, date_text, time_text, stamp_text, stamp_width, fraction_field, thread_field,
  name_field, render, tag_offset,
}
use spdlite.Formatter.Cache.{Shows, IsWide, length-fraction_field, length-thread_field}
use spdlite.Formatter.Patch.{
  InRange, put_time-append, put_date-append, put_time_text, put_date_text,
}

stamp_of-IsWide : (tm : Tm) → IsWide (stamp_of tm)
stamp_of-IsWide tm = record {
  year = length-decimal 4 _;
  month = length-decimal 2 _;
  day = length-decimal 2 _;
  hour = length-decimal 2 _;
  minute = length-decimal 2 _;
  second = length-decimal 2 _;
}

length-date_text : (s : Stamp) → IsWide s → length (date_text s) ≡ 11
length-date_text s w = simp length-append (omega arith)

length-time_text : (s : Stamp) → IsWide s → length (time_text s) ≡ 8
length-time_text s w = simp length-append (omega arith)

pub length-stamp_text : (d : Bool) (s : Stamp) → IsWide s → length (stamp_text d s) ≡ stamp_width d
length-stamp_text true s w =
    rw length-append (omega (arith, length-date_text s w, length-time_text s w))
length-stamp_text false s w = length-time_text s w

-- The timestamp in front of the header is replaced by that of `tm`.
put_stamp_text :
    (d : Bool) (rest : Bytes) (s : Stamp) (tm : Tm)
    → IsWide s
    → InRange tm
    → put_stamp d (b'[' ∷ (stamp_text d s ++ rest)) tm ≡ b'[' ∷ (stamp_text d (stamp_of tm) ++ rest)
unfolding put_stamp
put_stamp_text false rest s tm w r =
    put_time-append (b'[' ∷ []) (time_text s ++ rest) tm 1 refl
    ∙ ap (λ x. b'[' ∷ x) (put_time_text rest s tm w r)
put_stamp_text true rest s tm w r = rw (
  append_assoc (date_text s) (time_text s) rest,
  put_date-append (b'[' ∷ []) (date_text s ++ (time_text s ++ rest)) tm 1 refl,
  put_date_text (time_text s ++ rest) s tm w r,
  append_assoc (date_text (stamp_of tm)) (time_text (stamp_of tm)) rest,
  put_time-append (b'[' ∷ date_text (stamp_of tm)) (time_text s ++ rest) tm 12
      (omega (arith, length-date_text (stamp_of tm) (stamp_of-IsWide tm))),
  put_time_text rest s tm w r,
)

-- What stands before and behind the digits of the fraction, the thread id and the tag.
abbrev behind_fraction : FormatOptions → Bytes → Bytes → Bytes → Bytes
behind_fraction o name thread tag =
    codes "] "
    ++ (thread_field o.show_thread_id thread ++ (name_field name ++ (b'[' ∷ (tag ++ codes "] "))))

abbrev before_thread : FormatOptions → Bytes → Bytes → Bytes
before_thread o stamp digits = b'[' ∷ (stamp ++ (fraction_field o.precision digits ++ codes "] ["))

abbrev pub before_tag : FormatOptions → Bytes → Bytes → Bytes → Bytes → Bytes
before_tag o name stamp digits thread =
    b'['
    ∷ (stamp
        ++ (fraction_field o.precision digits
            ++ (codes "] "
                ++ (thread_field o.show_thread_id thread ++ (name_field name ++ b'[' ∷ [])))))

at_fraction :
    (o : FormatOptions) (name stamp digits thread tag : Bytes)
    → has_fraction o.precision ≡ true
    → render o name stamp digits thread tag
      ≡ (b'[' ∷ (stamp ++ b'.' ∷ [])) ++ (digits ++ behind_fraction o name thread tag)
at_fraction o name stamp digits thread tag h = rw h (simp append_assoc)

at_thread :
    (o : FormatOptions) (name stamp digits thread tag : Bytes)
    → o.show_thread_id ≡ true
    → render o name stamp digits thread tag
      ≡ before_thread o stamp digits
        ++ (thread ++ (codes "] " ++ (name_field name ++ (b'[' ∷ (tag ++ codes "] ")))))
at_thread o name stamp digits thread tag h = rw h (simp append_assoc)

pub at_tag :
    (o : FormatOptions) (name stamp digits thread tag : Bytes)
    → render o name stamp digits thread tag
      ≡ before_tag o name stamp digits thread ++ (tag ++ codes "] ")
at_tag o name stamp digits thread tag = simp append_assoc

pub no_thread :
    (o : FormatOptions) (name stamp digits t u tag : Bytes)
    → o.show_thread_id ≡ false
    → render o name stamp digits t tag ≡ render o name stamp digits u tag
no_thread o name stamp digits t u tag h = rw h

module _ {name : Bytes} {f : Formatter} {s : Stamp} {digits thread tag : Bytes}
    (k : Shows name f s digits thread tag) where
  abbrev stamp : Bytes
  stamp = stamp_text f.opts.show_date s

  -- `rebuild_timestamp` replaces the timestamp and nothing else.
  pub rebuild_timestamp-Shows :
      (c : LibC) (t : ℤ)
      → InRange (break_down c f.opts.utc t)
      → Shows name
          (rebuild_timestamp c f t)
          (stamp_of (break_down c f.opts.utc t))
          digits
          thread
          tag
  unfolding rebuild_timestamp
  rebuild_timestamp-Shows c t r = record {
    shape =
        ap (λ h. put_stamp f.opts.show_date h (break_down c f.opts.utc t)) k.shape
        ∙ put_stamp_text f.opts.show_date _ s _ k.wide r;
    wide = stamp_of-IsWide (break_down c f.opts.utc t);
    length_digits = k.length_digits;
    length_thread = k.length_thread;
    length_tag = k.length_tag;
    frac_at = k.frac_at;
    tid_at = k.tid_at;
    level_at = k.level_at;
  }

  pub write_fraction :
      (new : Bytes)
      → has_fraction f.opts.precision ≡ true
      → length new ≡ frac_width f.opts.precision
      → write_at f.header f.frac_offset new ≡ render f.opts name stamp new thread tag
  write_fraction new h same =
      ap (λ x. write_at x f.frac_offset new)
        (k.shape ∙ at_fraction f.opts name stamp digits thread tag h)
      ∙ write_at-part (b'[' ∷ (stamp ++ b'.' ∷ [])) digits (behind_fraction f.opts name thread tag)
          new f.frac_offset
          (simp length-append
            (omega (arith, k.frac_at h, length-stamp_text f.opts.show_date s k.wide)))
          (omega (arith, k.length_digits))
      ∙ sym (at_fraction f.opts name stamp new thread tag h)

  pub write_thread :
      (new : Bytes)
      → f.opts.show_thread_id ≡ true
      → length new ≡ 6
      → write_at f.header f.tid_offset new ≡ render f.opts name stamp digits new tag
  write_thread new h same =
      ap (λ x. write_at x f.tid_offset new)
        (k.shape ∙ at_thread f.opts name stamp digits thread tag h)
      ∙ write_at-part (before_thread f.opts stamp digits) thread _ new f.tid_offset
          (simp length-append (
            omega (
              arith,
              k.tid_at h,
              length-stamp_text f.opts.show_date s k.wide,
              length-fraction_field f.opts.precision digits k.length_digits,
            )))
          (omega (arith, k.length_thread))
      ∙ sym (at_thread f.opts name stamp digits new tag h)

  pub length-before_tag :
      length (before_tag f.opts name stamp digits thread) ≡ tag_offset f.opts name
  length-before_tag = simp length-append (
      omega (
        arith,
        length-stamp_text f.opts.show_date s k.wide,
        length-fraction_field f.opts.precision digits k.length_digits,
        length-thread_field f.opts.show_thread_id thread k.length_thread,
      ))

  pub write_tag :
      (new : Bytes)
      → length new ≡ 3
      → write_at f.header f.level_offset new ≡ render f.opts name stamp digits thread new
  write_tag new same =
      ap (λ x. write_at x f.level_offset new) (k.shape ∙ at_tag f.opts name stamp digits thread tag)
      ∙ write_at-part (before_tag f.opts name stamp digits thread) tag (codes "] ") new
          f.level_offset (omega (arith, k.level_at, length-before_tag))
          (omega (arith, k.length_tag))
      ∙ sym (at_tag f.opts name stamp digits thread new)
