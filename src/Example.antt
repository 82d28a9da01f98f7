-- ===== src/Example.antt =====
-- The example program (example/example.cpp), on a platform that is not Windows.
pub mod Files
pub mod Consoles
pub mod Gating
pub mod Outcome
pub mod Main
pub mod Writes
pub mod Rotating
use spdlite.Base.{ℕ, List, [], ◌∷◌, ◌++◌, Bytes, codes, true, false}
use spdlite.Base.Exec.{Exec, Done, ◌>>=◌, ◌>>◌, pure}
use spdlite.Level.{trace, debug, info, warn, err, critical}
use spdlite.Sink.{Sink, Tuple}
use spdlite.Buffer.{MemoryBuf}
use spdlite.Formatter.{FormatOptions, default_options, ns, none}
use spdlite.Console
use spdlite.Disk.{FilePath}
use spdlite.FileSink.{truncate}
use spdlite.SharedSink.{shared_sink}
use spdlite.Logger.{Logger, logger, set_log_level, set_format_options}
use spdlite.Logger.Levels.{gate, level_debug, level_info}
use spdlite.Programs.{
  Arg, text, number, Host, World, on_streams, on_disk, on_heap, file, rotating, make_file,
  make_rotating, make_shared, for_range, scope, on_first, on_second, change, make_console, view,
  say,
}

-- `SPDLITE_VER_MAJOR`, `SPDLITE_VER_MINOR` and `SPDLITE_VER_PATCH` of include/spdlite/common.h
abbrev pub ver_major : ℕ
ver_major = 0

abbrev pub ver_minor : ℕ
ver_minor = 1

abbrev pub ver_patch : ℕ
ver_patch = 0

abbrev pub line_of : Bytes → Bytes
line_of s = s ++ 10 ∷ []

abbrev pub banner_text : Bytes
banner_text =
    line_of []
    ++ line_of (codes "                ____ ___ __")
    ++ line_of (codes "   _________  ____/ / (.) /____")
    ++ line_of (codes "  / ___/ __ \\/ __  / / / __/ _ \\")
    ++ line_of (codes " (__  ) /_/ / /_/ / / / /_/  __/")
    ++ line_of (codes "/____/ .___/\\__,_/_/_/\\__/\\___/   v{}.{}.{}")
    ++ line_of (codes "    /_/")

-- A file below `logs`.
abbrev pub in_logs : Bytes → FilePath
in_logs name = record { parent_path = codes "logs"; filename = name }

abbrev pub max_size : ℕ
max_size = 256

abbrev pub max_files : ℕ
max_files = 3

abbrev pub level_text : Bytes
level_text = codes "This is a {} message"

-- Literals in UTF-8.
abbrev pub debug_text : Bytes
debug_text =
    codes "debug message "
    ++ (226 ∷ 128 ∷ 148 ∷ codes " visible at LEVEL_TRACE/DEBUG, elided at LEVEL_INFO+")

abbrev pub info_text : Bytes
info_text =
    codes "info message "
    ++ (226 ∷ 128 ∷ 148 ∷ codes " always compiled in unless built at LEVEL_WARN or higher")

module _ (B : MemoryBuf) (host : Host) where
  abbrev pub consoles : List (Sink World)
  consoles = on_streams (Console.sink B) ∷ []

  abbrev pub files : List (Sink World)
  files = on_disk file ∷ []

  abbrev pub rotatings : List (Sink World)
  rotatings = on_disk rotating ∷ []

  abbrev pub both : List (Sink World)
  both = on_streams (Console.sink B) ∷ on_disk file ∷ []

  abbrev pub shareds : List (Sink World)
  shareds = on_heap ∷ []

  unfoldable pub banner : Exec World Done
  banner = scope (logger B consoles [] (make_console B host, tt)) (
      say B host consoles info banner_text
        (number ver_major ∷ number ver_minor ∷ number ver_patch ∷ []))

  unfoldable pub log_levels : Exec World Done
  log_levels = scope (logger B consoles [] (make_console B host, tt)) (
      change (λ l. set_log_level B consoles l trace)
      >> say B host consoles trace level_text (text (codes "trace") ∷ [])
      >> say B host consoles debug level_text (text (codes "debug") ∷ [])
      >> say B host consoles info level_text (text (codes "info") ∷ [])
      >> say B host consoles warn level_text (text (codes "warning") ∷ [])
      >> say B host consoles err level_text (text (codes "error") ∷ [])
      >> say B host consoles critical level_text (text (codes "critical") ∷ []))

  abbrev pub set_options : FormatOptions → Exec (Logger B consoles × World) Done
  set_options o = change (λ l. set_format_options B consoles l o)

  unfoldable pub format_options_example : Exec World Done
  format_options_example = scope (logger B consoles [] (make_console B host, tt)) (
      set_options (record default_options { utc = true })
      >> set_options (record default_options { show_date = false })
      >> set_options (record default_options { precision = ns })
      >> set_options (record default_options { precision = none })
      >> set_options (record default_options { show_thread_id = true })
      >> set_options (record default_options { show_date = false; precision = none }))

  unfoldable pub file_sink_example : Exec World Done
  file_sink_example = make_file (in_logs (codes "example.txt")) truncate >>= λ s.
      scope (logger B files (codes "my_logger") (s, tt))
        (view B host files info (codes "This message is written to logs/example.txt"))

  -- One round of the loop.
  abbrev pub rotating_message : ℕ → Exec (Logger B rotatings × World) Done
  rotating_message i = say B host rotatings info (codes "rotating message #{:03}") (number i ∷ [])

  unfoldable pub rotating_file_sink_example : Exec World Done
  rotating_file_sink_example = make_rotating (in_logs (codes "rot.txt")) max_size max_files >>= λ s.
      scope (logger B rotatings [] (s, tt)) (for_range 2000 0 rotating_message)

  unfoldable pub multi_sink_example : Exec World Done
  multi_sink_example = make_file (in_logs (codes "multi.txt")) truncate >>= λ s.
      scope (logger B both [] (make_console B host, (s, tt)))
        (view B host both info (codes "This goes to both console and file"))

  unfoldable pub shared_file_sink_example : Exec World Done
  shared_file_sink_example = make_shared (in_logs (codes "shared.txt")) truncate >>= λ place.
      let wrapped = shared_sink place place in
      scope
        (
          logger B shareds (codes "network") (wrapped, tt),
          logger B shareds (codes "auth") (wrapped, tt),
        )
        (on_first (view B host shareds info (codes "connection established"))
          >> on_second (view B host shareds warn (codes "invalid token")))

  -- `active` is `SPDLITE_ACTIVE_LEVEL`.
  unfoldable pub compile_time_gating_example : ℕ → Exec World Done
  unfolding gate
  compile_time_gating_example active = scope (logger B consoles [] (make_console B host, tt)) (
      gate active level_debug (view B host consoles debug debug_text)
      >> gate active level_info (view B host consoles info info_text))

  unfoldable pub main : ℕ → Exec World Done
  main active =
      banner
      >> log_levels
      >> format_options_example
      >> file_sink_example
      >> rotating_file_sink_example
      >> multi_sink_example
      >> shared_file_sink_example
      >> compile_time_gating_example active
