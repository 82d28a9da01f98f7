-- ===== src/Console/Windows.antt =====
-- The colour sink on the Windows console (the first half of
-- include/spdlite/sinks/console_sink.h). The console is seen through the calls made on it.
pub mod Text
use spdlite.Base.{
  ℕ, ◌+◌, ◌-◌, ◌%◌, ◌^◌, List, [], ◌∷◌, ◌++◌, Bytes, Bool, true, false, ◌&&◌, Option, none, some,
  length, take, drop, set, get_elem?, ltb, if◌then◌else◌,
}
use spdlite.Base.Exec.{Result, ok, fail, aborted, bind}
use spdlite.Level.{Level, to_uint8, level_width}
use spdlite.Message.{LogMsg}

-- One call of the Windows API, with what it is given.
pub data ApiCall : Type 0 where
  write_console : Bytes → ApiCall
  write_file : Bytes → ApiCall
  set_text_attribute : ℕ → ApiCall

pub data ColorMode : Type 0 where
  automatic always never : ColorMode

-- `usable` says that the handle is neither null nor `INVALID_HANDLE_VALUE`.
pub record ConsoleSink : Type 0 where
  pub usable : Bool
  pub mode : ColorMode
  pub orig_attribs : ℕ
  pub is_console : Bool
  pub should_color : Bool
  pub colors : List ℕ

-- `FOREGROUND_BLUE` to `BACKGROUND_RED`
abbrev pub fg_blue : ℕ
fg_blue = 1

abbrev pub fg_green : ℕ
fg_green = 2

abbrev pub fg_red : ℕ
fg_red = 4

abbrev pub fg_intensity : ℕ
fg_intensity = 8

abbrev pub bg_red : ℕ
bg_red = 64

-- The flags are different bits, so `|` is a sum.
abbrev pub default_colors : List ℕ
default_colors =
    (fg_red + fg_green + fg_blue)
    ∷ (fg_green + fg_blue)
    ∷ fg_green
    ∷ (fg_red + fg_green + fg_intensity)
    ∷ (fg_red + fg_intensity)
    ∷ (bg_red + fg_red + fg_green + fg_blue + fg_intensity)
    ∷ 0
    ∷ []

unfoldable pub should_color_for : ColorMode → Bool → Bool
should_color_for always is_console = true
should_color_for never is_console = false
should_color_for automatic is_console = is_console

-- The constructor: `is_console` is whether `GetConsoleMode` succeeds, `attribs` what
-- `GetConsoleScreenBufferInfo` gives, if it does.
unfoldable pub console_sink_base : Bool → ColorMode → Bool → Option ℕ → ConsoleSink
unfolding should_color_for
console_sink_base usable mode is_console attribs = record {
  usable = usable;
  mode = mode;
  orig_attribs =
      if is_console
      then elim attribs [ none ↦ fg_red + fg_green + fg_blue | some a ↦ a ]
      else fg_red + fg_green + fg_blue;
  is_console = is_console;
  should_color = should_color_for mode is_console;
  colors = default_colors;
}

-- `console_sink` and `console_err_sink`, by what `GetStdHandle` and the console say of the stream.
abbrev pub console_sink : ColorMode → Bool → Bool → Option ℕ → ConsoleSink
console_sink mode usable is_console attribs = console_sink_base usable mode is_console attribs

abbrev pub console_err_sink : ColorMode → Bool → Bool → Option ℕ → ConsoleSink
console_err_sink mode usable is_console attribs = console_sink_base usable mode is_console attribs

unfoldable pub set_color_mode : ColorMode → ConsoleSink → ConsoleSink
unfolding should_color_for
set_color_mode mode s = record s { mode = mode; should_color = should_color_for mode s.is_console }

unfoldable pub set_color : Level → ℕ → ConsoleSink → ConsoleSink
set_color lvl color s = record s { colors = set s.colors (to_uint8 lvl) color }

-- `static_cast<DWORD>(size)` bytes
abbrev pub dword : Bytes → Bytes
dword s = take (length s % 2 ^ 32) s

unfoldable pub write_console_ : Bytes → List ApiCall → List ApiCall
write_console_ s calls = if ltb 0 (length s) then calls ++ write_console (dword s) ∷ [] else calls

abbrev pub redirected : Bytes → List ApiCall → List ApiCall
redirected s calls = calls ++ write_file (dword s) ∷ []

-- `write_console_(data + start, size)`: bytes behind the line are an access out of bounds.
unfoldable pub write_part : Bytes → ℕ → ℕ → List ApiCall → Result (List ApiCall)
unfolding write_console_
write_part line start size calls =
    if ltb 0 size && ltb (length line) (start + size)
    then fail aborted
    else ok (write_console_ (take size (drop start line)) calls)

-- The calls with the colour. `size - level_end` is unsigned, and wraps when the tag is not inside.
unfoldable pub write_colored : ConsoleSink → Bytes → ℕ → ℕ → List ApiCall → Result (List ApiCall)
unfolding write_part
write_colored s line level_start color calls =
    let level_end = (level_start + level_width) % 2 ^ 64 in
    let rest = (length line + 2 ^ 64 - level_end) % 2 ^ 64 in
    bind (write_part line 0 level_start calls) λ c1.
      bind (write_part line level_start level_width (c1 ++ set_text_attribute color ∷ []))
        λ c2. write_part line level_end rest (c2 ++ set_text_attribute s.orig_attribs ∷ [])

unfoldable pub write : ConsoleSink → LogMsg → List ApiCall → Result (List ApiCall)
unfolding write_console_ write_colored
write s msg calls =
    let line = msg.formatted in
    if s.usable
    then if s.should_color
      then if s.is_console
        then elim (get_elem? s.colors (to_uint8 msg.log_level)) [
          | none ↦ fail aborted
          | some color ↦ write_colored s line msg.level_offset color calls
        ]
        else ok (redirected line calls)
      else if s.is_console
      then ok (write_console_ line calls)
      else ok (redirected line calls)
    else ok calls
