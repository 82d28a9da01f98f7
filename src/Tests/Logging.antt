-- ===== src/Tests/Logging.antt =====
-- The logger at concrete inputs.
use spdlite.Base.{codes, false, true, arith, ◌≡◌, if◌then◌else◌, leb}
use spdlite.Base.Int.{pos}
use spdlite.Base.Exec.{ok, pure, ◌>>=◌}
use spdlite.Level.{info, off, at_least, to_uint8}
use spdlite.Formatter.{FormatOptions, default_options, rebuild_header, ns}
use spdlite.Formatter.Cache.{Cached, rebuild_header-Cached}
use spdlite.Formatter.Pure.{HasHeader, format_header-pure}
use spdlite.Formatter.{format_header}
use spdlite.Streams.{stdout}
use spdlite.Logger.{log, log_sv, move, set_name, set_format_options, logger}
use spdlite.Logger.Spec.{send, send_formatted, settings}
use spdlite.Logger.Refine.{IsValid, Agrees}
use spdlite.Logger.Calls.{log-Agrees, log_sv-Agrees}
use spdlite.Logger.Setters.{
  logger-IsValid, set_name-IsValid, set_format_options-IsValid, move-IsValid,
}
use spdlite.Logger.Levels.{macro, macro_lem}
use spdlite.Tests.Samples.{
  libc, env, buf, lawful, sinks, app, quiet, app-IsValid, app-Sound, hello, call,
}

log-Agrees_example :
    Agrees buf lawful sinks env app (log buf sinks env call info hello (app, quiet)) (
      if at_least info app.log_level
      then send_formatted buf sinks env
          (settings buf sinks app)
          5012345678
          4711
          info
          hello
          (app.sinks, quiet)
      else (ok tt, (app.sinks, quiet)))
log-Agrees_example =
    log-Agrees buf lawful sinks env app 5012345678 4711 info app-IsValid app-Sound hello quiet

log_sv-Agrees_example :
    Agrees buf lawful sinks env app (log_sv buf sinks env call info (codes "hi") (app, quiet)) (
      if at_least info app.log_level
      then send buf sinks env
          (settings buf sinks app)
          5012345678
          4711
          info
          (codes "hi")
          (app.sinks, quiet)
      else (ok tt, (app.sinks, quiet)))
log_sv-Agrees_example =
    log_sv-Agrees buf lawful sinks env app 5012345678 4711 info app-IsValid app-Sound (codes "hi")
      quiet (omega arith)

format_header-pure_example :
    HasHeader buf lawful libc
      (codes "app")
      app.formatter
      5012345678
      info
      4711
      buf.fresh
      (format_header buf libc app.formatter (pos 5012345678) info 4711 buf.fresh)
unfolding logger
format_header-pure_example =
    format_header-pure app-IsValid.cache 5012345678 info 4711 app-Sound.known (omega arith)
      app-Sound.in_range buf lawful buf.fresh lawful.fresh-IsValid app-Sound.fits

macro_lem_example : macro buf sinks env 2 call (pure hello) info (app, quiet) ≡ (
    if leb 2 (to_uint8 info)
    then (pure hello >>= λ fmt. log buf sinks env call info fmt) (app, quiet)
    else (ok tt, (app, quiet)))
macro_lem_example = macro_lem buf sinks env 2 call (pure hello) info (app, quiet) (omega arith)

logger-IsValid_example :
    IsValid buf lawful sinks env (logger buf sinks (codes "app") (stdout, tt))
    × (settings buf sinks (logger buf sinks (codes "app") (stdout, tt)) ≡ record {
      name = codes "app";
      log_level = info;
      flush_level = off;
      opts = default_options;
    })
logger-IsValid_example = logger-IsValid buf lawful sinks env (codes "app") (stdout, tt)

set_name-IsValid_example :
    IsValid buf lawful sinks env (set_name buf sinks app (codes "db"))
    × (settings buf sinks (set_name buf sinks app (codes "db")) ≡ record {
      name = codes "db";
      log_level = app.log_level;
      flush_level = app.flush_level;
      opts = app.formatter.opts;
    })
    × ((set_name buf sinks app (codes "db")).sinks ≡ app.sinks)
set_name-IsValid_example = set_name-IsValid buf lawful sinks env app (codes "db") app-IsValid

abbrev precise : FormatOptions
precise = record { utc = true; show_date = false; show_thread_id = true; precision = ns }

set_format_options-IsValid_example :
    IsValid buf lawful sinks env (set_format_options buf sinks app precise)
    × (settings buf sinks (set_format_options buf sinks app precise) ≡ record {
      name = app.name;
      log_level = app.log_level;
      flush_level = app.flush_level;
      opts = precise;
    })
    × ((set_format_options buf sinks app precise).sinks ≡ app.sinks)
set_format_options-IsValid_example =
    set_format_options-IsValid buf lawful sinks env app precise app-IsValid

move-IsValid_example :
    IsValid buf lawful sinks env (move buf sinks app app).0
    × (settings buf sinks (move buf sinks app app).0 ≡ settings buf sinks app)
    × ((move buf sinks app app).0.sinks ≡ app.sinks)
    × ((move buf sinks app app).1.log_level ≡ off)
move-IsValid_example = move-IsValid buf lawful sinks env app app app-IsValid

rebuild_header-Cached_example : Cached libc (codes "db") (rebuild_header app.formatter (codes "db"))
rebuild_header-Cached_example = rebuild_header-Cached libc app.formatter (codes "db")
