-- ===== src/Console.antt =====
-- The colour sink on terminals with escape codes (the second half of
-- include/spdlite/sinks/console_sink.h): `[prefix][color][LVL][reset][rest]`.
pub mod Windows
pub mod Color
pub mod Stdout
use spdlite.Base.{
  ℕ, ◌+◌, List, [], ◌∷◌, ◌++◌, Bytes, codes, Bool, true, false, Option, none, some, length, take,
  drop, set, get_elem?, if◌then◌else◌,
}
use spdlite.Base.Exec.{Result, ok, fail, aborted, Exec, Done}
use spdlite.Level.{
  Level, trace, debug, info, warn, err, critical, off, to_uint8, level_width, levels_count,
}
use spdlite.Message.{LogMsg}
use spdlite.Sink.{Sink}
use spdlite.Buffer.{MemoryBuf}
use spdlite.Streams.{Stream, stdout, stderr, Streams, fwrite_bytes}

pub data ColorMode : Type 0 where
  automatic always never : ColorMode

-- An escape code: ESC, `[` and the rest.
abbrev pub escape : Bytes → Bytes
escape s = 27 ∷ b'[' ∷ s

abbrev pub reset : Bytes
reset = escape (codes "m")

abbrev pub white : Bytes
white = escape (codes "37m")

abbrev pub cyan : Bytes
cyan = escape (codes "36m")

abbrev pub green : Bytes
green = escape (codes "32m")

abbrev pub yellow_bold : Bytes
yellow_bold = escape (codes "33m") ++ escape (codes "1m")

abbrev pub red_bold : Bytes
red_bold = escape (codes "31m") ++ escape (codes "1m")

abbrev pub bold_on_red : Bytes
bold_on_red = escape (codes "1m") ++ escape (codes "41m")

-- `update_should_color_`
unfoldable pub should_color_for : ColorMode → Bool → Bool
should_color_for always is_tty = true
should_color_for never is_tty = false
should_color_for automatic is_tty = is_tty

-- The colours that the constructor puts into the table, in the order of the levels.
abbrev pub default_colors : List Bytes
default_colors = white ∷ cyan ∷ green ∷ yellow_bold ∷ red_bold ∷ bold_on_red ∷ reset ∷ []

module _ (B : MemoryBuf) where
  pub record ConsoleSink : Type 0 where
    pub file : Stream
    pub mode : ColorMode
    pub is_tty : Bool
    pub should_color : Bool
    pub cbuf : B.State
    pub colors : List Bytes

  -- The constructor; `is_tty` is what `isatty(fileno(file))` says.
  unfoldable pub console_sink_base : Stream → ColorMode → Bool → ConsoleSink
  unfolding should_color_for
  console_sink_base file mode is_tty = record {
    file = file;
    mode = mode;
    is_tty = is_tty;
    should_color = should_color_for mode is_tty;
    cbuf = B.fresh;
    colors = default_colors;
  }

  abbrev pub console_sink : ColorMode → Bool → ConsoleSink
  console_sink mode is_tty = console_sink_base stdout mode is_tty

  abbrev pub console_err_sink : ColorMode → Bool → ConsoleSink
  console_err_sink mode is_tty = console_sink_base stderr mode is_tty

  unfoldable pub set_color_mode : ColorMode → ConsoleSink → ConsoleSink
  unfolding should_color_for
  set_color_mode mode s = record s { mode = mode; should_color = should_color_for mode s.is_tty }

  -- A level behind the table is an access out of bounds; the model then changes nothing.
  unfoldable pub set_color : Level → Bytes → ConsoleSink → ConsoleSink
  set_color lvl color s = record s { colors = set s.colors (to_uint8 lvl) color }

  -- The line with the colour around its tag, built in `cbuf_`.
  unfoldable pub colored : B.State → Bytes → Bytes → ℕ → B.State
  colored cbuf color line level_start =
      let level_end = level_start + level_width in
      let b1 = B.append (B.clear cbuf) (take level_start line) in
      let b2 = B.append b1 color in
      let b3 = B.append b2 (take level_width (drop level_start line)) in
      B.append (B.append b3 reset) (drop level_end line)

  -- A level behind the table of colours is an access out of bounds.
  unfoldable pub write : LogMsg → Exec (ConsoleSink × Streams) Done
  write msg (s, w) =
      if s.should_color
      then elim (get_elem? s.colors (to_uint8 msg.log_level)) [
        | none ↦ (fail aborted, (s, w))
        | some color ↦
            let b = colored s.cbuf color msg.formatted msg.level_offset in
            (ok tt, (record s { cbuf = b }, fwrite_bytes (B.contents b) s.file w))
      ]
      else (ok tt, (s, fwrite_bytes msg.formatted s.file w))

  abbrev pub sink : Sink Streams
  sink = record { State = ConsoleSink; write = write; flush = λ p. (ok tt, p) }
