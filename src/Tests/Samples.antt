-- ===== src/Tests/Samples.antt =====
-- A clock, a platform and loggers to run the code on.
use spdlite.Base.{ℕ, Bool, true, List, [], ◌∷◌, ◌++◌, codes, false, none, arith, refl}
use spdlite.Base.Int.{pos}
use spdlite.Level.{info}
use spdlite.Buffer.{MemoryBuf, IsLawful}
use spdlite.Buffer.StackBuf.Refine.{stack_buf, stack_buf-IsLawful}
use spdlite.Formatter
use spdlite.Formatter.{LibC, Tm, break_down}
use spdlite.Formatter.Layout.{header_text}
use spdlite.Formatter.Patch.{InRange}
use spdlite.Digits.Decimal.{decimal}
use spdlite.Sink.{Sink}
use spdlite.Streams.{Streams, stdout, stdout_sink}
use spdlite.Logger.{Call, Env, Logger, Formatting, logger}
use spdlite.Logger.Refine.{IsValid, Sound}
use spdlite.Logger.Setters.{logger-IsValid}

-- 2026-03-05 09:07:03
abbrev pub morning : Tm
morning = record {
  tm_year = pos 126;
  tm_mon = pos 2;
  tm_mday = pos 5;
  tm_hour = pos 9;
  tm_min = pos 7;
  tm_sec = pos 3;
}

abbrev pub libc : LibC
libc = record { gmtime_r = λ _. morning; localtime_r = λ _. morning }

pub morning-InRange : InRange morning
morning-InRange = record {
  year = (refl, omega arith);
  month = (refl, omega arith);
  day = (refl, omega arith);
  hour = (refl, omega arith);
  minute = (refl, omega arith);
  second = (refl, omega arith);
}

pub either-InRange : (utc : Bool) (s : ℕ) → InRange (break_down libc utc (pos s))
either-InRange true s = morning-InRange
either-InRange false s = morning-InRange

abbrev pub env : Env Streams
env = record { libc = libc; windows = false; report = λ s w. record w { err = w.err ++ s } }

abbrev pub buf : MemoryBuf
buf = stack_buf []

abbrev pub lawful : IsLawful buf
lawful = stack_buf-IsLawful []

abbrev pub sinks : List (Sink Streams)
sinks = stdout_sink ∷ []

abbrev pub app : Logger buf sinks
app = logger buf sinks (codes "app") (stdout, tt)

abbrev pub quiet : Streams
quiet = record { out = []; err = [] }

pub app-IsValid : IsValid buf lawful sinks env app
app-IsValid = (logger-IsValid buf lawful sinks env (codes "app") (stdout, tt)).0

pub app-Sound : Sound buf lawful sinks env app 5012345678 4711 info
unfolding header_text decimal logger Formatter.formatter Formatter.rebuild_header
app-Sound = record {
  known = λ e. ground (arith, e);
  after_epoch = omega arith;
  in_range = morning-InRange;
  fits = omega arith;
}

abbrev pub hello : Formatting
hello = record { out = codes "hello"; thrown = none }

abbrev pub call : Call
call = record { now = pos 5012345678; thread = 4711 }
