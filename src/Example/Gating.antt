-- ===== src/Example/Gating.antt =====
-- The calls of the example program that are gated at compile time (example/example.cpp).
use spdlite.Base.{ℕ, ◌≡◌, refl, ap, arith, [], Bytes, Bool, true, false, leb, if◌then◌else◌}
use spdlite.Base.Exec.{Exec, ok, Done, ◌>>◌}
use spdlite.Level.{debug, info}
use spdlite.Buffer.{MemoryBuf, IsLawful}
use spdlite.Logger.{Logger, logger, should_log, log_sv}
use spdlite.Logger.Levels.{gate, level_debug, level_info}
use spdlite.Programs.{Host, World, make_console, scope, view}
use spdlite.Programs.Said.{Proper}
use spdlite.Programs.Leaves.{new_settings}
use spdlite.Programs.Stdout.{printed, console_line, nothing_printed}
use spdlite.Programs.Printed.{
  consoles, view-Printed, console_logger, console_logger-Ready, make_console-IsPlain,
  console_program,
}
use spdlite.Example
use spdlite.Example.{
  banner_text, ver_major, ver_minor, ver_patch, level_text, debug_text, info_text,
}

-- How often the gated calls read the clock: the one on debug is dropped in any case.
abbrev pub gated_reads : Bool → ℕ
gated_reads infos = if infos then 1 else 0

module _ (host : Host) where
  -- A new logger drops the message on debug, and does not read the clock for it.
  abbrev pub gated_lines : Bool → ℕ → Bytes
  gated_lines infos r = if infos then console_line host (new_settings []) r info info_text else []

  module _ (B : MemoryBuf) (L : IsLawful B) (proper : Proper host) where
    dropped :
        (w : World)
        → view B host (consoles B L host) debug debug_text (console_logger B L host, w)
          ≡ (ok tt, (console_logger B L host, w))
    unfolding logger log_sv should_log
    dropped w = refl

    pub compile_time_gating_example_lem :
        (active : ℕ) (w : World)
        → Example.compile_time_gating_example B host active w ≡ (
          ok tt,
          printed
              (gated_lines (leb active level_info) w.readings)
              (gated_reads (leb active level_info))
              w,
        )
    unfolding Example.compile_time_gating_example gate
    compile_time_gating_example_lem active w =
        by_gates (leb active level_debug) (leb active level_info)
      where
        body : Bool → Bool → Exec (Logger B (consoles B L host) × World) Done
        body debugs infos =
            (λ s. if debugs then view B host (consoles B L host) debug debug_text s else (ok tt, s))
            >> (λ s. if infos then view B host (consoles B L host) info info_text s else (ok tt, s))

        last :
            (v : World)
            → scope (console_logger B L host) (view B host (consoles B L host) info info_text) v
              ≡ (ok tt, printed (console_line host (new_settings []) v.readings info info_text) 1 v)
        last v =
            console_program B L host (new_settings [])
              (view B host (consoles B L host) info info_text) _ 1 v
              (view-Printed B L host (new_settings []) info (λ e. ground (arith, e)) (omega arith)
                proper refl info_text (make_console B host) (console_logger B L host) v
                (omega arith) (make_console-IsPlain B L host) (console_logger-Ready B L host))

        by_gates :
            (debugs infos : Bool)
            → scope (console_logger B L host) (body debugs infos) w
              ≡ (ok tt, printed (gated_lines infos w.readings) (gated_reads infos) w)
        by_gates true true = rw (dropped w) (last w)
        by_gates true false = rw (dropped w) (ap (λ z. (ok tt, z)) (nothing_printed w))
        by_gates false true = last w
        by_gates false false = ap (λ z. (ok tt, z)) (nothing_printed w)
