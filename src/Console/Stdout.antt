-- ===== src/Console/Stdout.antt =====
-- What a new colour sink on stdout (include/spdlite/sinks/console_sink.h) makes of a line.
use spdlite.Base.{
  ℕ, ◌+◌, ◌≤◌, ◌≡◌, ◌≢◌, refl, ap, ◌∙◌, arith, [], ◌++◌, Bytes, Bool, true, false, some, length,
  take, drop, IsRange, get_elem?, if◌then◌else◌,
}
use spdlite.Base.Exec.{ok, Result, Done}
use spdlite.Level.{
  Level, trace, debug, info, warn, err, critical, off, n_levels, to_uint8, level_width,
}
use spdlite.Message.{LogMsg}
use spdlite.Buffer.{MemoryBuf, IsLawful}
use spdlite.Streams.{Streams, stdout, fwrite_bytes}
use spdlite.Console.{
  ConsoleSink, default_colors, white, cyan, green, yellow_bold, red_bold, bold_on_red, reset, write,
  console_sink_base, automatic,
}
use spdlite.Console.Color.{outcome, write-outcome, built}

-- The colour of a level; the sentinel has none.
abbrev pub color_of : Level → Bytes
color_of trace = white
color_of debug = cyan
color_of info = green
color_of warn = yellow_bold
color_of err = red_bold
color_of critical = bold_on_red
color_of off = reset
color_of n_levels = []

listed :
    (lvl : Level) → lvl ≢ n_levels → get_elem? default_colors (to_uint8 lvl) ≡ some (color_of lvl)
listed trace h = refl
listed debug h = refl
listed info h = refl
listed warn h = refl
listed err h = refl
listed critical h = refl
listed off h = refl
listed n_levels h = absurd (h refl)

color_of-IsRange : (lvl : Level) → IsRange (color_of lvl)
color_of-IsRange trace = omega arith
color_of-IsRange debug = omega arith
color_of-IsRange info = omega arith
color_of-IsRange warn = omega arith
color_of-IsRange err = omega arith
color_of-IsRange critical = omega arith
color_of-IsRange off = omega arith
color_of-IsRange n_levels = omega arith

-- A line with the colour around the tag that starts at `n`, if there are colours.
abbrev pub console_text : Bool → Level → ℕ → Bytes → Bytes
console_text colors lvl n line =
    if colors
    then take n line
      ++ (color_of lvl
          ++ (take level_width (drop n line) ++ (reset ++ drop (n + level_width) line)))
    else line

module _ (B : MemoryBuf) (L : IsLawful B) (colors : Bool) where
  -- A sink on stdout with the colours of the constructor.
  pub record IsPlain (s : ConsoleSink B) : Type 0 where
    pub buffer : L.IsValid s.cbuf
    pub on_stdout : s.file ≡ stdout
    pub coloring : s.should_color ≡ colors
    pub table : s.colors ≡ default_colors

  pub new-IsPlain : IsPlain (console_sink_base B stdout automatic colors)
  unfolding console_sink_base
  new-IsPlain = record { buffer = L.fresh-IsValid; on_stdout = refl; coloring = refl; table = refl }

  module _ (s : ConsoleSink B) (plain : IsPlain s) (msg : LogMsg) (w : Streams)
      (known : msg.log_level ≢ n_levels) (range : IsRange msg.formatted)
      (inside : msg.level_offset + level_width ≤ length msg.formatted) where
    pub record Shown (out : Result Done × (ConsoleSink B × Streams)) : Type 0 where
      pub returns : out.0 ≡ ok tt
      pub streams :
          out.1.1
          ≡ fwrite_bytes (console_text colors msg.log_level msg.level_offset msg.formatted) stdout w
      pub still_plain : IsPlain out.1.0

    in_table : get_elem? s.colors (to_uint8 msg.log_level) ≡ some (color_of msg.log_level)
    in_table =
        ap (λ t. get_elem? t (to_uint8 msg.log_level)) plain.table ∙ listed msg.log_level known

    abbrev result : Bool → Result Done × (ConsoleSink B × Streams)
    result c =
        outcome B L s msg (color_of msg.log_level) w plain.buffer range
          (color_of-IsRange msg.log_level) in_table inside c

    both_built :
        L.IsValid (result true).1.0.cbuf
        × (B.contents (result true).1.0.cbuf
            ≡ console_text true msg.log_level msg.level_offset msg.formatted)
    both_built =
        built B L s msg (color_of msg.log_level) w plain.buffer range
          (color_of-IsRange msg.log_level) in_table inside

    on_its_stream :
        (c : Bool)
        → c ≡ colors
        → fwrite_bytes (console_text c msg.log_level msg.level_offset msg.formatted) s.file w
          ≡ fwrite_bytes (console_text colors msg.log_level msg.level_offset msg.formatted) stdout w
    on_its_stream c e =
        ap (λ f. fwrite_bytes (console_text c msg.log_level msg.level_offset msg.formatted) f w)
          plain.on_stdout
        ∙ ap
            (λ x.
              fwrite_bytes (console_text x msg.log_level msg.level_offset msg.formatted) stdout w)
            e

    result-Shown : (c : Bool) → c ≡ colors → Shown (result c)
    result-Shown true e = record {
      returns = refl;
      streams = ap (λ t. fwrite_bytes t s.file w) both_built.1 ∙ on_its_stream true e;
      still_plain = record {
        buffer = both_built.0;
        on_stdout = plain.on_stdout;
        coloring = plain.coloring;
        table = plain.table;
      };
    }
    result-Shown false e = record {
      returns = refl;
      streams = on_its_stream false e;
      still_plain = plain;
    }

    pub write-Shown_plain : Shown (write B msg (s, w))
    write-Shown_plain =
        rw
          (write-outcome B L s msg (color_of msg.log_level) w plain.buffer range
            (color_of-IsRange msg.log_level) in_table inside)
          (result-Shown s.should_color plain.coloring)
