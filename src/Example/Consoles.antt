-- ===== src/Example/Consoles.antt =====
-- What the parts of the example program that use the console print (example/example.cpp).
use spdlite.Base.{
  ℕ, ◌+◌, ◌≡◌, ◌≢◌, refl, ap, arith, List, [], ◌∷◌, ◌++◌, Bytes, codes, length, true,
}
use spdlite.Base.Exec.{Exec, ok, Done, ◌>>◌}
use spdlite.Level.{Level, trace, debug, info, warn, err, critical, off, n_levels, at_least}
use spdlite.Buffer.{MemoryBuf, IsLawful}
use spdlite.Console.{ConsoleSink}
use spdlite.Logger.{Logger, set_log_level}
use spdlite.Logger.Spec.{Settings}
use spdlite.Programs.{Arg, text, number, Host, World, make_console, change, say}
use spdlite.Programs.Said.{Proper, Ready}
use spdlite.Programs.Leaves.{new_settings}
use spdlite.Programs.Stdout.{printed, console_line, Formats, nothing_printed}
use spdlite.Programs.Printed.{
  consoles, Printed, then_Printed, say-Printed, same_text-Printed, same_count-Printed,
  console_logger, console_logger-Ready, make_console-IsPlain, console_program,
}
use spdlite.Example
use spdlite.Example.{
  banner_text, ver_major, ver_minor, ver_patch, level_text, debug_text, info_text,
}

abbrev pub banner_args : List Arg
banner_args = number ver_major ∷ number ver_minor ∷ number ver_patch ∷ []

-- The word for a level in the messages of `log_levels`.
abbrev pub word : Level → Bytes
word trace = codes "trace"
word debug = codes "debug"
word info = codes "info"
word warn = codes "warning"
word err = codes "error"
word critical = codes "critical"
word off = []
word n_levels = []

module _ (host : Host) where
  -- A logger without a name that lets every level through.
  abbrev pub tracing : Settings
  tracing = record (new_settings []) { log_level = trace }

  -- The formatting library ends normally on these strings, with short texts.
  pub record ConsoleFormats : Type 0 where
    pub banner_format : Formats host banner_text banner_args
    pub level_format : (lvl : Level) → Formats host level_text (text (word lvl) ∷ [])

  abbrev pub banner_lines : ℕ → Bytes
  banner_lines r =
      console_line host (new_settings []) r info (host.format banner_text banner_args).out

  -- The line of a level.
  abbrev pub level_line : ℕ → Level → Bytes
  level_line r lvl =
      console_line host tracing r lvl (host.format level_text (text (word lvl) ∷ [])).out

  abbrev six_lines : ℕ → ℕ → Bytes
  six_lines first r =
      level_line first trace
      ++ level_line (r + 1) debug
      ++ level_line (r + 2) info
      ++ level_line (r + 3) warn
      ++ level_line (r + 4) err
      ++ level_line (r + 5) critical

  abbrev pub level_lines : ℕ → Bytes
  level_lines r = six_lines r r

  module _ (B : MemoryBuf) (L : IsLawful B) (proper : Proper host) (formats : ConsoleFormats) where
    pub banner_lem :
        (w : World) → Example.banner B host w ≡ (ok tt, printed (banner_lines w.readings) 1 w)
    unfolding Example.banner
    banner_lem w =
        console_program B L host (new_settings [])
          (say B host (consoles B L host) info banner_text banner_args) _ 1 w
          (say-Printed B L host (new_settings []) info (λ e. ground (arith, e)) (omega arith) proper
            refl banner_text banner_args (make_console B host) (console_logger B L host) w
            formats.banner_format (make_console-IsPlain B L host) (console_logger-Ready B L host))

    pub format_options_example_lem :
        (w : World) → Example.format_options_example B host w ≡ (ok tt, w)
    unfolding Example.format_options_example
    format_options_example_lem w = refl

    tracing-Ready :
        (sink : ConsoleSink B) (l : Logger B (consoles B L host))
        → Ready B L host (consoles B L host) (new_settings []) (sink, tt) l
        → Ready B L host
            (consoles B L host)
            tracing
            (sink, tt)
            (set_log_level B (consoles B L host) l trace)
    unfolding set_log_level
    tracing-Ready sink l h = record {
      valid = record { buffer = h.valid.buffer; cache = h.valid.cache };
      same = ap (λ (S : Settings). record S { log_level = trace }) h.same;
      has = h.has;
    }

    abbrev level_say : Level → Exec (Logger B (consoles B L host) × World) Done
    level_say lvl = say B host (consoles B L host) lvl level_text (text (word lvl) ∷ [])

    -- The calls of the example up to a level; the last one comes first in the list.
    abbrev calls : List Level → Exec (Logger B (consoles B L host) × World) Done
    calls [] = change (λ l. set_log_level B (consoles B L host) l trace)
    calls (lvl ∷ before) = calls before >> level_say lvl

    abbrev calls_text : List Level → ℕ → Bytes
    calls_text [] r = []
    calls_text (lvl ∷ before) r = calls_text before r ++ level_line (r + length before) lvl

    abbrev AreLevels : List Level → Type 0
    AreLevels [] = Unit
    AreLevels (lvl ∷ before) = (lvl ≢ n_levels) × AreLevels before

    passes : (lvl : Level) → at_least lvl trace ≡ true
    passes lvl = ground arith

    calls-Printed :
        (lvls : List Level) (w : World)
        → AreLevels lvls
        → Printed B L host tracing
            (calls_text lvls w.readings)
            (length lvls)
            w
            (calls lvls (console_logger B L host, w))
    calls-Printed [] w all = record {
      sink = make_console B host;
      plain = make_console-IsPlain B L host;
      returns = refl;
      world = nothing_printed w;
      ready =
          tracing-Ready (make_console B host) (console_logger B L host)
            (console_logger-Ready B L host);
    }
    calls-Printed (lvl ∷ before) w (known, all) = same_count-Printed B L host (omega arith) (
        then_Printed B L host tracing (calls_text before w.readings) _ (length before) 1 w
          (calls before) (level_say lvl) (console_logger B L host, w) (calls-Printed before w all)
          (λ sink l plain h.
            say-Printed B L host tracing lvl known (omega arith) proper (passes lvl) level_text
              (text (word lvl) ∷ []) sink l
              (printed (calls_text before w.readings) (length before) w) (formats.level_format lvl)
              plain h))

    pub log_levels_lem :
        (w : World) → Example.log_levels B host w ≡ (ok tt, printed (level_lines w.readings) 6 w)
    unfolding Example.log_levels
    log_levels_lem w =
        let lvls = critical ∷ err ∷ warn ∷ info ∷ debug ∷ trace ∷ [] in
        console_program B L host tracing (calls lvls) (level_lines w.readings) 6 w (
          same_text-Printed B L host (ap (λ k. six_lines k w.readings) (omega arith))
            (calls-Printed lvls w traced))
      where
        traced : AreLevels (critical ∷ err ∷ warn ∷ info ∷ debug ∷ trace ∷ [])
        traced = (
          λ e. ground (arith, e),
          (
            λ e. ground (arith, e),
            (
              λ e. ground (arith, e),
              (λ e. ground (arith, e), (λ e. ground (arith, e), (λ e. ground (arith, e), tt))),
            ),
          ),
        )
