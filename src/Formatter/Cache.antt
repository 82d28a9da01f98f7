-- ===== src/Formatter/Cache.antt =====
-- The invariant of the cached header: it has the documented shape, the offsets point at its
-- fields, and its timestamp is that of `last_secs_`.
use spdlite.Base.{
  ◌+◌, ◌≡◌, ◌⊎◌, inl, refl, sym, arith, [], ◌∷◌, ◌++◌, append_assoc, append-nil, Bytes, codes, Bool,
  true, false, length, length-append, length-replicate, replicate, if◌then◌else◌,
}
use spdlite.Base.Int.{pos}
use spdlite.Formatter.{
  TimePrecision, none, ms, us, ns, LibC, Formatter, has_fraction, frac_width, break_down,
  rebuild_header, start_header, add_fraction, open_thread, fill_thread, add_name,
}
use spdlite.Formatter.Layout.{
  Stamp, stamp_of, stamp_text, stamp_width, fraction_field, thread_field, name_field, render,
  tag_offset,
}

-- Each numeral has its width.
pub record IsWide (s : Stamp) : Type 0 where
  pub year : length s.year ≡ 4
  pub month : length s.month ≡ 2
  pub day : length s.day ≡ 2
  pub hour : length s.hour ≡ 2
  pub minute : length s.minute ≡ 2
  pub second : length s.second ≡ 2

-- The header shows these fields, and the offsets point at them.
pub record Shows (name : Bytes) (f : Formatter) (stamp : Stamp) (digits thread tag : Bytes)
    : Type 0 where
  pub shape : f.header ≡ render f.opts name (stamp_text f.opts.show_date stamp) digits thread tag
  pub wide : IsWide stamp
  pub length_digits : length digits ≡ frac_width f.opts.precision
  pub length_thread : length thread ≡ 6
  pub length_tag : length tag ≡ 3
  pub frac_at :
      has_fraction f.opts.precision ≡ true → f.frac_offset ≡ stamp_width f.opts.show_date + 2
  pub tid_at :
      f.opts.show_thread_id ≡ true
      → f.tid_offset
        ≡ (if has_fraction f.opts.precision then 1 + frac_width f.opts.precision else 0)
          + stamp_width f.opts.show_date
          + 4
  pub level_at : f.level_offset ≡ tag_offset f.opts name

pub record Cached (c : LibC) (name : Bytes) (f : Formatter) : Type 0 where
  pub stamp : Stamp
  pub digits : Bytes
  pub thread : Bytes
  pub tag : Bytes
  pub shows : Shows name f stamp digits thread tag
  pub current : (f.last_secs ≡ pos 0) ⊎ (stamp ≡ stamp_of (break_down c f.opts.utc f.last_secs))

-- The placeholders that `rebuild_header` writes.
abbrev pub zero_stamp : Stamp
zero_stamp = record {
  year = codes "0000";
  month = codes "00";
  day = codes "00";
  hour = codes "00";
  minute = codes "00";
  second = codes "00";
}

abbrev zeros : TimePrecision → Bytes
zeros p = replicate (frac_width p) b'0'

start_header_lem : (d : Bool) → start_header d ≡ b'[' ∷ stamp_text d zero_stamp
unfolding start_header
start_header_lem true = refl
start_header_lem false = refl

add_fraction_lem :
    (p : TimePrecision) (h : Bytes) → add_fraction p h ≡ h ++ fraction_field p (zeros p)
unfolding add_fraction
add_fraction_lem none h = sym (append-nil h)
add_fraction_lem ms h = append_assoc h _ _
add_fraction_lem us h = append_assoc h _ _
add_fraction_lem ns h = append_assoc h _ _

thread_lem :
    (t : Bool) (h : Bytes)
    → fill_thread t (open_thread t h) ≡ h ++ thread_field t (replicate 6 b'0')
unfolding open_thread fill_thread
thread_lem true h = append_assoc h _ _
thread_lem false h = sym (append-nil h)

add_name_lem : (name h : Bytes) → add_name name h ≡ h ++ name_field name
unfolding add_name
add_name_lem [] h = sym (append-nil h)
add_name_lem (c ∷ s) h = simp append_assoc

ruleset parts = (start_header_lem, add_fraction_lem, thread_lem, add_name_lem, append_assoc)

pub opts-rebuild_header : (f : Formatter) (name : Bytes) → (rebuild_header f name).opts ≡ f.opts
unfolding rebuild_header
opts-rebuild_header f name = refl

last_secs-rebuild_header :
    (f : Formatter) (name : Bytes) → (rebuild_header f name).last_secs ≡ pos 0
unfolding rebuild_header
last_secs-rebuild_header f name = refl

rebuild_shape :
    (f : Formatter) (name : Bytes)
    → (rebuild_header f name).header
      ≡ render f.opts name
          (stamp_text f.opts.show_date zero_stamp)
          (zeros f.opts.precision)
          (replicate 6 b'0')
          (codes "INF")
unfolding rebuild_header
rebuild_shape f name = simp parts

length-zero_stamp : (d : Bool) → length (stamp_text d zero_stamp) ≡ stamp_width d
length-zero_stamp true = refl
length-zero_stamp false = refl

pub length-fraction_field :
    (p : TimePrecision) (digits : Bytes)
    → length digits ≡ frac_width p
    → length (fraction_field p digits) ≡ (if has_fraction p then 1 + frac_width p else 0)
length-fraction_field none digits h = refl
length-fraction_field ms digits h = omega arith
length-fraction_field us digits h = omega arith
length-fraction_field ns digits h = omega arith

pub length-thread_field :
    (t : Bool) (digits : Bytes)
    → length digits ≡ 6
    → length (thread_field t digits) ≡ (if t then 9 else 0)
length-thread_field true digits h = omega (arith, length-append digits (codes "] "))
length-thread_field false digits h = refl

rebuild_frac_at :
    (f : Formatter) (name : Bytes)
    → has_fraction f.opts.precision ≡ true
    → (rebuild_header f name).frac_offset ≡ stamp_width f.opts.show_date + 2
unfolding rebuild_header
rebuild_frac_at f name h =
    rw (h, start_header_lem) (omega (arith, length-zero_stamp f.opts.show_date))

rebuild_tid_at :
    (f : Formatter) (name : Bytes)
    → f.opts.show_thread_id ≡ true
    → (rebuild_header f name).tid_offset
      ≡ (if has_fraction f.opts.precision then 1 + frac_width f.opts.precision else 0)
        + stamp_width f.opts.show_date
        + 4
unfolding rebuild_header open_thread
rebuild_tid_at f name h =
    rw (h, start_header_lem, add_fraction_lem)
      (simp length-append (
        omega (
          arith,
          length-zero_stamp f.opts.show_date,
          length-fraction_field f.opts.precision (zeros f.opts.precision)
              (length-replicate (frac_width f.opts.precision) b'0'),
        )))

rebuild_level_at :
    (f : Formatter) (name : Bytes) → (rebuild_header f name).level_offset ≡ tag_offset f.opts name
unfolding rebuild_header
rebuild_level_at f name =
    simp (parts, length-append)
      (omega (
        arith,
        length-zero_stamp f.opts.show_date,
        length-thread_field f.opts.show_thread_id (replicate 6 b'0') refl,
        length-fraction_field f.opts.precision (zeros f.opts.precision)
            (length-replicate (frac_width f.opts.precision) b'0'),
      ))

pub rebuild_header-Shows :
    (f : Formatter) (name : Bytes)
    → Shows name
        (rebuild_header f name)
        zero_stamp
        (zeros f.opts.precision)
        (replicate 6 b'0')
        (codes "INF")
rebuild_header-Shows f name = record {
  shape = rw opts-rebuild_header (rebuild_shape f name);
  wide = omega arith;
  length_digits = rw opts-rebuild_header (length-replicate (frac_width f.opts.precision) b'0');
  length_thread = refl;
  length_tag = refl;
  frac_at = rw opts-rebuild_header (rebuild_frac_at f name);
  tid_at = rw opts-rebuild_header (rebuild_tid_at f name);
  level_at = rw opts-rebuild_header (rebuild_level_at f name);
}

-- Whatever the formatter was, a rebuilt header has the documented shape, its offsets point at its
-- fields, and its timestamp is marked as unset.
pub rebuild_header-Cached :
    (c : LibC) (f : Formatter) (name : Bytes) → Cached c name (rebuild_header f name)
rebuild_header-Cached c f name = record {
  stamp = zero_stamp;
  digits = zeros f.opts.precision;
  thread = replicate 6 b'0';
  tag = codes "INF";
  shows = rebuild_header-Shows f name;
  current = inl (last_secs-rebuild_header f name);
}
