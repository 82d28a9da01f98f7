-- ===== src/Logger.antt =====
-- `class logger_impl` (include/spdlite/logger.h), one call at a time: a call holds the mutex from
-- its first change of the state to its last. The clock and the thread's id are read by the caller.
pub mod Spec
pub mod Refine
pub mod Handed
pub mod Caught
pub mod Calls
pub mod Setters
pub mod Levels
pub mod Errors
pub mod Locked
use spdlite.Base.{
  ℕ, ◌-◌, List, [], ◌∷◌, ◌++◌, Bytes, codes, Bool, true, false, Option, none, some, length, take,
  drop, if◌then◌else◌,
}
use spdlite.Base.Int.{ℤ}
use spdlite.Base.Exec.{
  Result, ok, fail, Failure, std_exception, other_exception, aborted, terminated, Exec, Done, ◌>>=◌,
  ◌>>◌, try,
}
use spdlite.Level.{Level, trace, debug, info, warn, err, critical, off, at_least}
use spdlite.Message.{LogMsg}
use spdlite.Sink.{Sink, Tuple, write_all, flush_all}
use spdlite.Buffer.{MemoryBuf}
use spdlite.Formatter
use spdlite.Formatter.{Formatter, FormatOptions, default_options, LibC, format_header}

-- What a call finds outside the program: the C library's calendar, the platform, and `stderr`.
pub record Env (W : Type 0) : Type 0 where
  pub libc : LibC
  pub windows : Bool
  pub report : Bytes → W → W

-- What one call of the formatting library does: the bytes that it appends, and the exception that
-- it ends with, if it does.
pub record Formatting : Type 0 where
  pub out : Bytes
  pub thrown : Option Failure

-- When and where a call is made: `log_clock::now()` in nanoseconds, and the thread's raw id.
pub record Call : Type 0 where
  pub now : ℤ
  pub thread : ℕ

module _ (B : MemoryBuf) {W : Type 0} (ss : List (Sink W)) where
  pub record Logger : Type 0 where
    pub name : Bytes
    pub log_level : Level
    pub flush_level : Level
    pub formatter : Formatter
    pub buf : B.State
    pub sinks : Tuple ss

  -- The constructors; the one with no name, and the default one, have the empty name.
  unfoldable pub logger : Bytes → Tuple ss → Logger
  logger name sinks = record {
    name = name;
    log_level = info;
    flush_level = off;
    formatter = Formatter.formatter name default_options;
    buf = B.fresh;
    sinks = sinks;
  }

  -- The move constructor: the new logger and the old one. `left` is what the moves of the members
  -- leave behind; the old logger is then switched off.
  unfoldable pub move : Logger → Logger → Logger × Logger
  move other left =
      let (new_buf, old_buf) = B.move other.buf in
      (record other { buf = new_buf }, record left { buf = old_buf; log_level = off })

  abbrev pub get_log_level : Logger → Level
  get_log_level l = l.log_level

  abbrev pub get_flush_level : Logger → Level
  get_flush_level l = l.flush_level

  abbrev pub get_name : Logger → Bytes
  get_name l = l.name

  unfoldable pub should_log : Logger → Level → Bool
  should_log l msg_level = at_least msg_level l.log_level

  unfoldable pub should_flush : Logger → Level → Bool
  should_flush l msg_level = at_least msg_level l.flush_level

  unfoldable pub set_log_level : Logger → Level → Logger
  set_log_level l lvl = record l { log_level = lvl }

  unfoldable pub set_flush_level : Logger → Level → Logger
  set_flush_level l lvl = record l { flush_level = lvl }

  unfoldable pub set_name : Logger → Bytes → Logger
  set_name l new_name = record l {
    name = new_name;
    formatter = Formatter.set_logger_name l.formatter new_name;
  }

  unfoldable pub set_format_options : Logger → FormatOptions → Logger
  set_format_options l opts = record l { formatter = Formatter.formatter l.name opts }

  -- Code on the sinks, run on the logger that holds them.
  abbrev pub on_sinks : Exec (Tuple ss × W) Done → Exec (Logger × W) Done
  on_sinks m p = let (r, (xs, w)) = m (p.0.sinks, p.1) in (r, (record (p.0) { sinks = xs }, w))

  -- An exception that leaves a `noexcept` function ends the program.
  abbrev pub no_except : Result Done → Result Done
  no_except (ok a) = ok a
  no_except (fail (std_exception what)) = fail terminated
  no_except (fail other_exception) = fail terminated
  no_except (fail aborted) = fail aborted
  no_except (fail terminated) = fail terminated

  abbrev pub noexcept : {S : Type 0} → Exec S Done → Exec S Done
  noexcept m s = let (r, s') = m s in (no_except r, s')

  unfoldable pub flush : Exec (Logger × W) Done
  flush = noexcept (on_sinks (flush_all ss))

  module _ (env : Env W) where
    -- The `catch` clauses.
    abbrev pub log_error : Failure → Bytes
    log_error (std_exception what) = codes "spdlite: log error: " ++ what ++ 10 ∷ []
    log_error other_exception = codes "spdlite: unknown log error" ++ 10 ∷ []
    log_error aborted = []
    log_error terminated = []

    abbrev pub handle : {S : Type 0} → Failure → Exec (S × W) Done
    handle e (s, w) = (ok tt, (s, env.report (log_error e) w))

    abbrev pub add_newline : B.State → B.State
    add_newline b = B.push_back (if env.windows then B.push_back b 13 else b) 10

    -- `s.write(msg)` on each sink, and `s.flush()` on each if the level asks for it.
    unfoldable pub dispatch : Bool → LogMsg → Exec (Tuple ss × W) Done
    dispatch flushes msg = do write_all msg ss; if flushes then flush_all ss else (λ p. (ok tt, p))

    -- From the end of the payload on.
    unfoldable pub deliver : Call → Level → ℕ → Exec (Logger × W) Done
    deliver call lvl payload_start (l, w) =
        let payload_end = length (B.contents l.buf) in
        let b = add_newline l.buf in
        let formatted = B.contents b in
        let msg : LogMsg = record {
          time = call.now;
          logger_name = l.name;
          log_level = lvl;
          formatted = formatted;
          payload = take (payload_end - payload_start) (drop payload_start formatted);
          level_offset = l.formatter.level_offset;
        } in
        on_sinks (dispatch (should_flush l lvl) msg) (record l { buf = b }, w)

    -- Output through an iterator that appends one byte after the other.
    unfoldable pub push_all : B.State → Bytes → B.State
    push_all b [] = b
    push_all b (c ∷ s) = push_all (B.push_back b c) s

    -- The payload behind the header, and what follows it.
    abbrev pub add_formatted : Call → Level → Formatting → Exec (Logger × W) Done
    add_formatted call lvl fmt (l, w) =
        let start = length (B.contents l.buf) in
        let l' = record l { buf = push_all l.buf fmt.out } in
        elim fmt.thrown [ none ↦ deliver call lvl start (l', w) | some e ↦ (fail e, (l', w)) ]

    unfoldable pub with_header : Call → Level → Exec (Logger × W) Done → Exec (Logger × W) Done
    with_header call lvl body (l, w) =
        let b = B.clear l.buf in
        elim (format_header B env.libc l.formatter call.now lvl call.thread b) [
          | ok (f, b') ↦ body (record l { formatter = f; buf = b' }, w)
          | fail e ↦ (fail e, (record l { buf = b }, w))
        ]

    abbrev pub add_view : Call → Level → Bytes → Exec (Logger × W) Done
    add_view call lvl sv (l, w) =
        let start = length (B.contents l.buf) in
        deliver call lvl start (record l { buf = B.append l.buf sv }, w)

    unfoldable pub log_sv_ : Call → Level → Bytes → Exec (Logger × W) Done
    log_sv_ call lvl sv = noexcept (try (with_header call lvl (add_view call lvl sv)) handle)

    unfoldable pub log_fmt_args_ : Call → Level → Formatting → Exec (Logger × W) Done
    log_fmt_args_ call lvl fmt =
        noexcept (try (with_header call lvl (add_formatted call lvl fmt)) handle)

    -- The arguments are packed, and read by the formatting library.
    abbrev pub dispatch_fmt_ : Call → Level → Formatting → Exec (Logger × W) Done
    dispatch_fmt_ call lvl fmt = log_fmt_args_ call lvl fmt

    unfoldable pub log_sv : Call → Level → Bytes → Exec (Logger × W) Done
    log_sv call lvl msg p = if should_log p.0 lvl then log_sv_ call lvl msg p else (ok tt, p)

    unfoldable pub log : Call → Level → Formatting → Exec (Logger × W) Done
    log call lvl fmt p = if should_log p.0 lvl then dispatch_fmt_ call lvl fmt p else (ok tt, p)
