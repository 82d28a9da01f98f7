-- ===== src/Logger/Locked/Serial.antt =====
-- Threads that share a logger (include/spdlite/logger.h): their calls against a sequence of calls.
use spdlite.Base.{ℕ, ◌≡◌, refl, ap, ◌∙◌, List, [], ◌∷◌, ◌++◌, true, Option, none, some, length}
use spdlite.Base.Exec.{Result, ok, fail, Failure, Exec, Done, state_of}
use spdlite.Level.{Level}
use spdlite.Sink.{Sink}
use spdlite.Buffer.{MemoryBuf}
use spdlite.Formatter.{Formatter, format_header}
use spdlite.Logger.{
  Env, Call, Formatting, Logger, should_flush, push_all, with_header, add_view, add_formatted,
  deliver, set_name, set_format_options,
}
use spdlite.Threads.{Calls, whole, replay, calls_of, finish, Reach, System}
use spdlite.Threads.Serial.{serial}
use spdlite.Logger.Locked.{
  LockedCall, log_view, log_format, rename, set_options, flush_sinks, fresh_frame, Shared,
  SmallStep, takes_lock, when_ok, headed, put_view, put_formatted, end_line, hand_out, steps,
  locked_calls, body, sequence,
}

module _ (B : MemoryBuf) {W : Type 0} (ss : List (Sink W)) (env : Env W) where
  abbrev K : Calls
  K = locked_calls B ss env

  abbrev State : Type 0
  State = Shared B ss env

  -- Behind the header, with an exception of the header or without one.
  after_header :
      (rest : List (SmallStep B ss env)) (m : Exec State Done) (l : Logger B ss) (w : W)
      → ((fm : Formatter) (b : B.State)
          → finish K rest (
            (record l { formatter = fm; buf = b }, w),
            record fresh_frame { payload_start = length (B.contents b) },
          )
            ≡ state_of (m (record l { formatter = fm; buf = b }, w)))
      → ((e : Failure) (s : State) → finish K rest (s, record fresh_frame { status = fail e }) ≡ s)
      → (r : Result (Formatter × B.State))
      → (let out : Result Done × State = elim r [
        | ok (fm, b) ↦ m (record l { formatter = fm; buf = b }, w)
        | fail e ↦ (fail e, (l, w))
      ] in
          finish K rest (headed B ss env r ((l, w), fresh_frame)) ≡ out.1)
  after_header rest m l w good bad (ok (fm, b)) = good fm b
  after_header rest m l w good bad (fail e) = bad e (l, w)

  module _ (call : Call) (lvl : Level) where
    formatted_tail :
        (fmt : Formatting) (thrown : Option Failure) (l : Logger B ss) (w : W)
        → (let fmt' = record fmt { thrown = thrown } in
            finish K
              (when_ok B ss env (put_formatted B ss env fmt')
                ∷ when_ok B ss env (end_line B ss env)
                ∷ when_ok B ss env (hand_out B ss env call lvl)
                ∷ [])
              ((l, w), record fresh_frame { payload_start = length (B.contents l.buf) })
            ≡ state_of (add_formatted B ss env call lvl fmt' (l, w)))
    unfolding finish deliver push_all should_flush
    formatted_tail fmt none l w = refl
    formatted_tail fmt (some e) l w = refl

  whole-body : (c : LockedCall) (p : State) → whole K c p ≡ body B ss env c p
  unfolding whole finish steps body set_name set_format_options with_header deliver push_all
      should_flush
  whole-body (log_view call lvl sv) (l, w) =
      after_header
        (when_ok B ss env (put_view B ss env sv)
          ∷ when_ok B ss env (end_line B ss env)
          ∷ when_ok B ss env (hand_out B ss env call lvl)
          ∷ [])
        (add_view B ss env call lvl sv) (record l { buf = B.clear l.buf }) w (λ fm b. refl)
        (λ e s. refl)
        (format_header B env.libc l.formatter call.now lvl call.thread (B.clear l.buf))
  whole-body (log_format call lvl fmt) (l, w) =
      after_header
        (when_ok B ss env (put_formatted B ss env fmt)
          ∷ when_ok B ss env (end_line B ss env)
          ∷ when_ok B ss env (hand_out B ss env call lvl)
          ∷ [])
        (add_formatted B ss env call lvl fmt) (record l { buf = B.clear l.buf }) w
        (λ fm b. formatted_tail call lvl fmt fmt.thrown (record l { formatter = fm; buf = b }) w)
        (λ e s. refl)
        (format_header B env.libc l.formatter call.now lvl call.thread (B.clear l.buf))
  whole-body (rename name) (l, w) = refl
  whole-body (set_options o) (l, w) = refl
  whole-body flush_sinks p = refl

  replay-sequence : (h : List (ℕ × LockedCall)) (p : State) → replay K h p ≡ sequence B ss env h p
  unfolding replay sequence
  replay-sequence [] p = refl
  replay-sequence ((i, c) ∷ h) p =
      replay-sequence h (whole K c p) ∙ ap (sequence B ss env h) (whole-body c p)

  pub every_call_guards : (c : LockedCall) → takes_lock c ≡ true
  unfolding takes_lock
  every_call_guards (log_view call lvl sv) = refl
  every_call_guards (log_format call lvl fmt) = refl
  every_call_guards (rename name) = refl
  every_call_guards (set_options o) = refl
  every_call_guards flush_sinks = refl

  -- Threads that share a logger, step by step in any interleaving: whenever the lock is free, the
  -- logger and all that its sinks reach are as if one thread had made the calls that took the lock,
  -- one after the other, and each thread's calls stand in that order as the thread makes them.
  pub logger-serial :
      {n : ℕ} {p : State} {programs : ℕ → List LockedCall} {t : System K}
      → Reach K n p programs t
      → t.lock ≡ none
      → (t.shared ≡ sequence B ss env t.history p)
        × ((i : ℕ) → calls_of K i t.history ++ t.todo i ≡ programs i)
  logger-serial {n} {p} {t = t} r free =
      let (shared, order) = serial K n every_call_guards r free in
      (shared ∙ replay-sequence t.history p, order)
