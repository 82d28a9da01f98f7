-- ===== src/Logger/Levels.antt =====
-- The overloads for one level each, and the gate at compile time (`SPDLITE_TRACE` to
-- `SPDLITE_CRITICAL` at the end of include/spdlite/logger.h).
use spdlite.Base.{ℕ, ◌<◌, ◌≡◌, refl, arith, List, Bytes, leb, if◌then◌else◌}
use spdlite.Base.Exec.{ok, Exec, Done, ◌>>=◌}
use spdlite.Level.{Level, trace, debug, info, warn, err, critical, off, n_levels, to_uint8}
use spdlite.Sink.{Sink}
use spdlite.Buffer.{MemoryBuf}
use spdlite.Logger.{Env, Call, Formatting, Logger, log, log_sv}

module _ (B : MemoryBuf) {W : Type 0} (ss : List (Sink W)) (env : Env W) (call : Call) where
  -- The six overloads that take a format string.
  module _ (fmt : Formatting) where
    unfoldable pub log_trace : Exec (Logger B ss × W) Done
    log_trace = log B ss env call trace fmt

    unfoldable pub log_debug : Exec (Logger B ss × W) Done
    log_debug = log B ss env call debug fmt

    unfoldable pub log_info : Exec (Logger B ss × W) Done
    log_info = log B ss env call info fmt

    unfoldable pub log_warn : Exec (Logger B ss × W) Done
    log_warn = log B ss env call warn fmt

    unfoldable pub log_error : Exec (Logger B ss × W) Done
    log_error = log B ss env call err fmt

    unfoldable pub log_critical : Exec (Logger B ss × W) Done
    log_critical = log B ss env call critical fmt

  -- The six overloads that take a view.
  module _ (msg : Bytes) where
    unfoldable pub trace_sv : Exec (Logger B ss × W) Done
    trace_sv = log_sv B ss env call trace msg

    unfoldable pub debug_sv : Exec (Logger B ss × W) Done
    debug_sv = log_sv B ss env call debug msg

    unfoldable pub info_sv : Exec (Logger B ss × W) Done
    info_sv = log_sv B ss env call info msg

    unfoldable pub warn_sv : Exec (Logger B ss × W) Done
    warn_sv = log_sv B ss env call warn msg

    unfoldable pub error_sv : Exec (Logger B ss × W) Done
    error_sv = log_sv B ss env call err msg

    unfoldable pub critical_sv : Exec (Logger B ss × W) Done
    critical_sv = log_sv B ss env call critical msg

-- `SPDLITE_LEVEL_TRACE` to `SPDLITE_LEVEL_OFF`
abbrev pub level_trace : ℕ
level_trace = 0

abbrev pub level_debug : ℕ
level_debug = 1

abbrev pub level_info : ℕ
level_info = 2

abbrev pub level_warn : ℕ
level_warn = 3

abbrev pub level_error : ℕ
level_error = 4

abbrev pub level_critical : ℕ
level_critical = 5

abbrev pub level_off : ℕ
level_off = 6

-- `#if SPDLITE_ACTIVE_LEVEL <= own`: the call with its arguments, or `(void)0`.
unfoldable pub gate : {S : Type 0} → ℕ → ℕ → Exec S Done → Exec S Done
gate active own call s = if leb active own then call s else (ok tt, s)

-- The macros. Evaluating the arguments is code too; it comes before the call and gives the
-- formatting's outcome.
module _ (B : MemoryBuf) {W : Type 0} (ss : List (Sink W)) (env : Env W) (active : ℕ) (call : Call)
    (args : Exec (Logger B ss × W) Formatting) where
  unfoldable pub spdlite_trace : Exec (Logger B ss × W) Done
  unfolding gate
  spdlite_trace = gate active level_trace (args >>= λ fmt. log_trace B ss env call fmt)

  unfoldable pub spdlite_debug : Exec (Logger B ss × W) Done
  unfolding gate
  spdlite_debug = gate active level_debug (args >>= λ fmt. log_debug B ss env call fmt)

  unfoldable pub spdlite_info : Exec (Logger B ss × W) Done
  unfolding gate
  spdlite_info = gate active level_info (args >>= λ fmt. log_info B ss env call fmt)

  unfoldable pub spdlite_warn : Exec (Logger B ss × W) Done
  unfolding gate
  spdlite_warn = gate active level_warn (args >>= λ fmt. log_warn B ss env call fmt)

  unfoldable pub spdlite_error : Exec (Logger B ss × W) Done
  unfolding gate
  spdlite_error = gate active level_error (args >>= λ fmt. log_error B ss env call fmt)

  unfoldable pub spdlite_critical : Exec (Logger B ss × W) Done
  unfolding gate
  spdlite_critical = gate active level_critical (args >>= λ fmt. log_critical B ss env call fmt)

  -- The macro of a level; the sentinels have none.
  abbrev pub macro : Level → Exec (Logger B ss × W) Done
  macro trace = spdlite_trace
  macro debug = spdlite_debug
  macro info = spdlite_info
  macro warn = spdlite_warn
  macro err = spdlite_error
  macro critical = spdlite_critical
  macro _ = λ p. (ok tt, p)

  -- For every level but the sentinels: below the active level a logging macro does nothing, its
  -- arguments are not evaluated either; from that level on it evaluates them and logs at its own
  -- level.
  pub macro_lem :
      (lvl : Level) (p : Logger B ss × W)
      → to_uint8 lvl < level_off
      → macro lvl p ≡ (
          if leb active (to_uint8 lvl)
          then (args >>= λ fmt. log B ss env call lvl fmt) p
          else (ok tt, p))
  unfolding spdlite_trace spdlite_debug spdlite_info spdlite_warn spdlite_error spdlite_critical
      log_trace log_debug log_info log_warn log_error log_critical
  macro_lem trace p h = refl
  macro_lem debug p h = refl
  macro_lem info p h = refl
  macro_lem warn p h = refl
  macro_lem err p h = refl
  macro_lem critical p h = refl
  macro_lem off p h = absurd (omega arith)
  macro_lem n_levels p h = absurd (omega arith)
