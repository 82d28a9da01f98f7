-- ===== src/Formatter/Layout.antt =====
-- The line header as the documentation shows it, put together from numerals in reading order,
-- with no cache and no offsets.
use spdlite.Base.{ℕ, ◌+◌, ◌/◌, ◌%◌, [], ◌∷◌, ◌++◌, Bytes, codes, Bool, length, if◌then◌else◌}
use spdlite.Base.Int.{pos, ◌+ℤ◌, pos_part}
use spdlite.Digits.Decimal.{decimal}
use spdlite.Formatter.{
  TimePrecision, none, ms, us, ns, FormatOptions, Tm, LibC, is_empty, has_fraction, frac_width,
  break_down,
}

-- The numerals of a timestamp.
pub record Stamp : Type 0 where
  pub year : Bytes
  pub month : Bytes
  pub day : Bytes
  pub hour : Bytes
  pub minute : Bytes
  pub second : Bytes

abbrev pub date_text : Stamp → Bytes
date_text s = s.year ++ (b'-' ∷ (s.month ++ (b'-' ∷ (s.day ++ b' ' ∷ []))))

abbrev pub time_text : Stamp → Bytes
time_text s = s.hour ++ (b':' ∷ (s.minute ++ (b':' ∷ s.second)))

-- `YYYY-MM-DD HH:MM:SS`, or the time alone
abbrev pub stamp_text : Bool → Stamp → Bytes
stamp_text show_date s = if show_date then date_text s ++ time_text s else time_text s

abbrev pub stamp_of : Tm → Stamp
stamp_of tm = record {
  year = decimal 4 (pos_part (tm.tm_year +ℤ pos 1900));
  month = decimal 2 (pos_part (tm.tm_mon +ℤ pos 1));
  day = decimal 2 (pos_part tm.tm_mday);
  hour = decimal 2 (pos_part tm.tm_hour);
  minute = decimal 2 (pos_part tm.tm_min);
  second = decimal 2 (pos_part tm.tm_sec);
}

abbrev pub stamp_width : Bool → ℕ
stamp_width show_date = if show_date then 19 else 8

-- The digits of the fraction of a second that the precision shows.
abbrev pub fraction_digits : TimePrecision → ℕ → Bytes
fraction_digits none frac = []
fraction_digits ms frac = decimal 3 (frac / 1000000)
fraction_digits us frac = decimal 6 (frac / 1000)
fraction_digits ns frac = decimal 9 frac

abbrev pub fraction_field : TimePrecision → Bytes → Bytes
fraction_field p digits = if has_fraction p then b'.' ∷ digits else []

abbrev pub thread_field : Bool → Bytes → Bytes
thread_field shown digits = if shown then b'[' ∷ (digits ++ codes "] ") else []

abbrev pub name_field : Bytes → Bytes
name_field name = if is_empty name then [] else b'[' ∷ (name ++ codes "] ")

-- `[stamp.fraction] [thread] [name] [tag] `
abbrev pub render : FormatOptions → Bytes → Bytes → Bytes → Bytes → Bytes → Bytes
render o name stamp digits thread tag =
    b'['
    ∷ (stamp
        ++ (fraction_field o.precision digits
            ++ (codes "] "
                ++ (thread_field o.show_thread_id thread
                    ++ (name_field name ++ (b'[' ∷ (tag ++ codes "] ")))))))

-- Where the tag starts.
abbrev pub tag_offset : FormatOptions → Bytes → ℕ
tag_offset o name =
    1
    + stamp_width o.show_date
    + (if has_fraction o.precision then 1 + frac_width o.precision else 0)
    + 2
    + (if o.show_thread_id then 9 else 0)
    + length (name_field name)
    + 1

-- The header of a line logged `t` nanoseconds after the epoch by the thread with id `raw`.
unfoldable pub header_text : LibC → FormatOptions → Bytes → ℕ → Bytes → ℕ → Bytes
header_text c o name t tag raw =
    render o name (stamp_text o.show_date (stamp_of (break_down c o.utc (pos (t / 1000000000)))))
      (fraction_digits o.precision (t % 1000000000)) (decimal 6 (raw % 1000000)) tag
