-- ===== src/Formatter.antt =====
-- `struct formatter` (include/spdlite/formatter.h): a header that is built once and patched on each
-- call. A time is `time_since_epoch()` in nanoseconds, the unit of the system clock on Linux.
pub mod Layout
pub mod Widths
pub mod Cache
pub mod Patch
pub mod Fields
pub mod Steps
pub mod Pure
pub mod Bounds
pub mod Within
use spdlite.Base.{
  ℕ, ◌+◌, ◌^◌, List, [], ◌∷◌, ◌++◌, Bytes, codes, Bool, true, false, write_at, take, length,
  replicate, if◌then◌else◌,
}
use spdlite.Base.Int.{ℤ, pos, ◌+ℤ◌, ◌-ℤ◌, scale, quot, wrap, eq_ℤ}
use spdlite.Base.Exec.{Result, ok, fail, bind}
use spdlite.Level.{Level, level_width, to_string_view}
use spdlite.Digits.{put2, put3, put4, put6, put9, this_thread_id_log}
use spdlite.Buffer.{MemoryBuf}

pub data TimePrecision : Type 0 where
  none ms us ns : TimePrecision

pub record FormatOptions : Type 0 where
  pub utc : Bool
  pub show_date : Bool
  pub show_thread_id : Bool
  pub precision : TimePrecision

-- The member initialisers of `format_options`.
abbrev pub default_options : FormatOptions
default_options = record { utc = false; show_date = true; show_thread_id = false; precision = ms }

-- The fields of the C library's `struct tm` that the code reads.
pub record Tm : Type 0 where
  pub tm_year : ℤ
  pub tm_mon : ℤ
  pub tm_mday : ℤ
  pub tm_hour : ℤ
  pub tm_min : ℤ
  pub tm_sec : ℤ

-- What the C library computes of a `std::time_t`.
pub record LibC : Type 0 where
  pub gmtime_r : ℤ → Tm
  pub localtime_r : ℤ → Tm

pub record Formatter : Type 0 where
  pub opts : FormatOptions
  pub header : Bytes
  pub frac_offset : ℕ
  pub tid_offset : ℕ
  pub level_offset : ℕ
  pub last_secs : ℤ

abbrev pub frac_width : TimePrecision → ℕ
frac_width ms = 3
frac_width us = 6
frac_width ns = 9
frac_width none = 0

-- `precision != time_precision::none`
abbrev pub has_fraction : TimePrecision → Bool
has_fraction none = false
has_fraction _ = true

abbrev pub is_empty : Bytes → Bool
is_empty [] = true
is_empty (c ∷ s) = false

-- The parts of `rebuild_header`, each on the value of `header_` so far.
unfoldable pub start_header : Bool → Bytes
start_header show_date = if show_date then codes "[0000-00-00 00:00:00" else codes "[00:00:00"

unfoldable pub add_fraction : TimePrecision → Bytes → Bytes
add_fraction p h = if has_fraction p then (h ++ b'.' ∷ []) ++ replicate (frac_width p) b'0' else h

unfoldable pub open_thread : Bool → Bytes → Bytes
open_thread shown h = if shown then h ++ b'[' ∷ [] else h

unfoldable pub fill_thread : Bool → Bytes → Bytes
fill_thread shown h = if shown then h ++ codes "000000] " else h

unfoldable pub add_name : Bytes → Bytes → Bytes
add_name name h = if is_empty name then h else ((h ++ b'[' ∷ []) ++ name) ++ codes "] "

-- `h0` to `h5` are the successive values of `header_`.
unfoldable pub rebuild_header : Formatter → Bytes → Formatter
rebuild_header f logger_name =
    let p = f.opts.precision in
    let tid = f.opts.show_thread_id in
    let h0 = start_header f.opts.show_date in
    let h1 = add_fraction p h0 ++ codes "] " in
    let h2 = open_thread tid h1 in
    let h3 = fill_thread tid h2 in
    let h4 = add_name logger_name h3 in
    let h5 = h4 ++ b'[' ∷ [] in
    record {
      opts = f.opts;
      header = h5 ++ codes "INF] ";
      frac_offset = if has_fraction p then length h0 + 1 else f.frac_offset;
      tid_offset = if tid then length h2 else f.tid_offset;
      level_offset = length h5;
      last_secs = pos 0;
    }

-- The constructor: the other members start at zero.
unfoldable pub formatter : Bytes → FormatOptions → Formatter
formatter logger_name opts =
    rebuild_header
      (record {
        opts = opts;
        header = [];
        frac_offset = 0;
        tid_offset = 0;
        level_offset = 0;
        last_secs = pos 0;
      })
      logger_name

unfoldable pub set_logger_name : Formatter → Bytes → Formatter
set_logger_name f name = rebuild_header f name

abbrev pub break_down : LibC → Bool → ℤ → Tm
break_down c utc t = if utc then c.gmtime_r t else c.localtime_r t

unfoldable pub put_date : Bytes → ℕ → Tm → Bytes
put_date h off tm =
    let h1 = put4 h off (tm.tm_year +ℤ pos 1900) in
    let h2 = put2 h1 (off + 5) (tm.tm_mon +ℤ pos 1) in put2 h2 (off + 8) tm.tm_mday

unfoldable pub put_time : Bytes → ℕ → Tm → Bytes
put_time h off tm = put2 (put2 (put2 h off tm.tm_hour) (off + 3) tm.tm_min) (off + 6) tm.tm_sec

-- The bytes from offset 1 on.
unfoldable pub put_stamp : Bool → Bytes → Tm → Bytes
put_stamp show_date h tm =
    if show_date then put_time (put_date h 1 tm) (1 + 11) tm else put_time h 1 tm

unfoldable pub rebuild_timestamp : LibC → Formatter → ℤ → Formatter
rebuild_timestamp c f time_t_val =
    let tm = break_down c f.opts.utc time_t_val in
    record f { header = put_stamp f.opts.show_date f.header tm }

-- `if (secs != last_secs_) { last_secs_ = secs; rebuild_timestamp(secs); }`
unfoldable pub refresh : LibC → Formatter → ℤ → Formatter
refresh c f secs =
    if eq_ℤ secs f.last_secs then f else rebuild_timestamp c (record f { last_secs = secs }) secs

-- The `switch` over the precision, at `header_.data() + frac_offset_`.
unfoldable pub put_fraction : TimePrecision → Bytes → ℕ → ℤ → Bytes
put_fraction none h off frac_ns = h
put_fraction ms h off frac_ns = put3 h off (quot frac_ns 1000000)
put_fraction us h off frac_ns = put6 h off (wrap (2 ^ 64) (quot frac_ns 1000))
put_fraction ns h off frac_ns = put9 h off (wrap (2 ^ 64) frac_ns)

unfoldable pub patch_fraction : Formatter → ℤ → Formatter
patch_fraction f frac_ns = record f {
  header = put_fraction f.opts.precision f.header f.frac_offset frac_ns;
}

unfoldable pub patch_thread_id : Formatter → ℕ → Formatter
patch_thread_id f raw = record f {
  header =
      if f.opts.show_thread_id
      then put6 f.header f.tid_offset (this_thread_id_log raw)
      else f.header;
}

-- `memcpy(header_.data() + level_offset_, tag, level_width)`
unfoldable pub patch_level : Formatter → Bytes → Formatter
patch_level f tag = record f { header = write_at f.header f.level_offset (take level_width tag) }

module _ (B : MemoryBuf) where
  -- `time_ns` and the thread's id `raw` are read from the clock and the platform by the caller.
  unfoldable pub format_header :
      LibC → Formatter → ℤ → Level → ℕ → B.State → Result (Formatter × B.State)
  format_header c f time_ns lvl raw dest =
      let secs = quot time_ns 1000000000 in
      let frac_ns = time_ns -ℤ scale secs 1000000000 in
      let f1 = refresh c f secs in
      let f2 = patch_thread_id (patch_fraction f1 frac_ns) raw in
      bind (to_string_view lvl)
        λ tag. let f3 = patch_level f2 tag in ok (f3, B.append dest f3.header)
