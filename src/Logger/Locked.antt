-- ===== src/Logger/Locked.antt =====
-- A logger that threads share (include/spdlite/logger.h): which calls take the lock, and what each
-- does under it, in small steps. The clock is read before the lock, so a call carries its time; the
-- levels are atomics that no step here changes; the handler of exceptions runs behind the release.
pub mod Serial
pub mod Messages
pub mod Refine
use spdlite.Base.{
  ℕ, ◌-◌, ◌≡◌, refl, ap, ◌∙◌, List, [], ◌∷◌, ◌++◌, Bytes, Bool, true, Option, none, some, length,
  take, drop, if◌then◌else◌,
}
use spdlite.Base.Exec.{Result, ok, fail, Failure, Exec, Done, state_of, result_of}
use spdlite.Level.{Level}
use spdlite.Message.{LogMsg}
use spdlite.Sink.{Sink, flush_all}
use spdlite.Buffer.{MemoryBuf}
use spdlite.Formatter
use spdlite.Formatter.{Formatter, FormatOptions, format_header}
use spdlite.Logger.{
  Env, Call, Formatting, Logger, on_sinks, dispatch, add_newline, should_flush, push_all,
  with_header, add_view, add_formatted, deliver, set_name, set_format_options,
}
use spdlite.Threads.{Calls, whole, replay, calls_of, finish, Reach, System}

-- The calls that read or change more than an atomic.
pub data LockedCall : Type 0 where
  log_view : Call → Level → Bytes → LockedCall
  log_format : Call → Level → Formatting → LockedCall
  rename : Bytes → LockedCall
  set_options : FormatOptions → LockedCall
  flush_sinks : LockedCall

-- Whether the call has a `std::lock_guard<Mutex> lock(mutex_)` around what it does.
unfoldable pub takes_lock : LockedCall → Bool
takes_lock (log_view call lvl sv) = true
takes_lock (log_format call lvl fmt) = true
takes_lock (rename name) = true
takes_lock (set_options o) = true
takes_lock flush_sinks = true

-- `payload_start`, `payload_end`, and the exception that left the `try` block, if one did.
pub record Frame : Type 0 where
  pub status : Result Done
  pub payload_start : ℕ
  pub payload_end : ℕ

abbrev pub fresh_frame : Frame
fresh_frame = record { status = ok tt; payload_start = 0; payload_end = 0 }

module _ (B : MemoryBuf) {W : Type 0} (ss : List (Sink W)) (env : Env W) where
  abbrev pub Shared : Type 0
  Shared = Logger B ss × W

  abbrev pub SmallStep : Type 0
  SmallStep = Shared × Frame → Shared × Frame

  -- A step that an exception before it leaves out.
  abbrev pub when_ok : SmallStep → SmallStep
  when_ok g (s, f) = elim f.status [ ok _ ↦ g (s, f) | fail e ↦ (s, f) ]

  abbrev pub clear_buffer : SmallStep
  clear_buffer ((l, w), f) = ((record l { buf = B.clear l.buf }, w), f)

  abbrev pub headed : Result (Formatter × B.State) → SmallStep
  headed (ok (fm, b)) ((l, w), f) = (
    (record l { formatter = fm; buf = b }, w),
    record f { payload_start = length (B.contents b) },
  )
  headed (fail e) ((l, w), f) = ((l, w), record f { status = fail e })

  abbrev pub put_header : Call → Level → SmallStep
  put_header call lvl ((l, w), f) =
      headed (format_header B env.libc l.formatter call.now lvl call.thread l.buf) ((l, w), f)

  abbrev pub put_view : Bytes → SmallStep
  put_view sv ((l, w), f) =
      let b = B.append l.buf sv in
      ((record l { buf = b }, w), record f { payload_end = length (B.contents b) })

  abbrev pub put_formatted : Formatting → SmallStep
  put_formatted fmt ((l, w), f) =
      let b = push_all B ss env l.buf fmt.out in
      elim fmt.thrown [
        | none ↦ ((record l { buf = b }, w), record f { payload_end = length (B.contents b) })
        | some e ↦ ((record l { buf = b }, w), record f { status = fail e })
      ]

  abbrev pub end_line : SmallStep
  end_line ((l, w), f) = ((record l { buf = add_newline B ss env l.buf }, w), f)

  abbrev pub hand_out : Call → Level → SmallStep
  hand_out call lvl ((l, w), f) =
      let formatted = B.contents l.buf in
      let msg : LogMsg = record {
        time = call.now;
        logger_name = l.name;
        log_level = lvl;
        formatted = formatted;
        payload = take (f.payload_end - f.payload_start) (drop f.payload_start formatted);
        level_offset = l.formatter.level_offset;
      } in
      let (r, s) = on_sinks B ss (dispatch B ss env (should_flush B ss l lvl) msg) (l, w) in
      (s, record f { status = r })

  unfoldable pub steps : LockedCall → List SmallStep
  steps (log_view call lvl sv) =
      clear_buffer
      ∷ put_header call lvl
      ∷ when_ok (put_view sv)
      ∷ when_ok end_line
      ∷ when_ok (hand_out call lvl)
      ∷ []
  steps (log_format call lvl fmt) =
      clear_buffer
      ∷ put_header call lvl
      ∷ when_ok (put_formatted fmt)
      ∷ when_ok end_line
      ∷ when_ok (hand_out call lvl)
      ∷ []
  steps (rename name) =
      (λ p. ((record (p.0.0) { name = name }, p.0.1), p.1))
      ∷ (λ p. (
        (
          record (p.0.0) { formatter = Formatter.set_logger_name p.0.0.formatter p.0.0.name },
          p.0.1,
        ),
        p.1,
      ))
      ∷ []
  steps (set_options o) =
      (λ p. ((record (p.0.0) { formatter = Formatter.formatter p.0.0.name o }, p.0.1), p.1)) ∷ []
  steps flush_sinks =
      (λ p. let (r, s) = on_sinks B ss (flush_all ss) p.0 in (s, record (p.1) { status = r })) ∷ []

  abbrev pub locked_calls : Calls
  locked_calls = record {
    Shared = Shared;
    Locals = Frame;
    Call = LockedCall;
    locals = λ _. fresh_frame;
    guards = takes_lock;
    steps = steps;
  }

  -- The same calls as one function each.
  unfoldable pub body : LockedCall → Shared → Shared
  body (log_view call lvl sv) p =
      state_of (with_header B ss env call lvl (add_view B ss env call lvl sv) p)
  body (log_format call lvl fmt) p =
      state_of (with_header B ss env call lvl (add_formatted B ss env call lvl fmt) p)
  body (rename name) (l, w) = (set_name B ss l name, w)
  body (set_options o) (l, w) = (set_format_options B ss l o, w)
  body flush_sinks p = state_of (on_sinks B ss (flush_all ss) p)

  -- Calls one after the other, in some order.
  unfoldable pub sequence : List (ℕ × LockedCall) → Shared → Shared
  sequence [] p = p
  sequence ((i, c) ∷ h) p = sequence h (body c p)
