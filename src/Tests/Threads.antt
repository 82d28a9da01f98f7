-- ===== src/Tests/Threads.antt =====
-- Threads and shared sinks at concrete inputs.
use spdlite.Base.{ℕ, [], ◌∷◌, ◌++◌, List, codes, refl, arith, ◌≡◌, some, none, zero, suc}
use spdlite.Streams.{stdout, stdout_sink}
use spdlite.Logger.{logger}
use spdlite.Threads.{
  Small, System, Calls, Reach, here, next, acquire, work, release, start, update, calls_of,
}
use spdlite.Logger.Locked.{
  LockedCall, Frame, rename, log_view, locked_calls, takes_lock, steps, fresh_frame, clear_buffer,
  put_header, put_view, end_line, hand_out, when_ok,
}
use spdlite.Logger.Locked.Messages.{IsProper, view_of, spec_calls}
use spdlite.Threads.History.{Every}
use spdlite.Logger.Locked.Refine.{logger-messages}
use spdlite.Level.{info}
use spdlite.SharedSink.{shared_sink, SharedSink}
use spdlite.SharedSink.Copies.{
  SinkCall, write, flush, through, direct, stored, calls, through-direct,
}
use spdlite.Tests.Samples.{
  env, buf, sinks, app, quiet, libc, lawful, call, app-IsValid, either-InRange,
}
use spdlite.Tests.Files.{line}

abbrev K : Calls
K = locked_calls buf sinks env

-- The states that the steps of a thread lead to.
module _ (L : Calls) (s : System L) (i : ℕ) where
  abbrev acquired : L.Call → List L.Call → System L
  acquired c cs = record s {
    lock = some i;
    running = update s.running i (some (L.steps c, L.locals c));
    todo = update s.todo i cs;
    history = s.history ++ (i, c) ∷ [];
  }

  abbrev worked : Small L → List (Small L) → L.Locals → System L
  worked f fs l = record s {
    shared = (f (s.shared, l)).0;
    running = update s.running i (some (fs, (f (s.shared, l)).1));
  }

  abbrev released : System L
  released = record s { lock = none; running = update s.running i none }

-- Thread 1 logs a line, thread 0 is to rename the logger.
abbrev talkers : ℕ → List LockedCall
talkers zero = rename (codes "db") ∷ []
talkers (suc i) = log_view call info (codes "hello") ∷ []

abbrev talking : System K
talking = start K (app, quiet) talkers

abbrev hello_call : LockedCall
hello_call = log_view call info (codes "hello")

-- The locals of the thread in the middle of its call.
abbrev locals_of : System K → Frame
locals_of s = elim (s.running 1) [ none ↦ fresh_frame | some (fs, l) ↦ l ]

abbrev cleared : System K
cleared =
    worked K (acquired K talking 1 hello_call []) 1 (clear_buffer buf sinks env)
      (put_header buf sinks env call info
        ∷ when_ok buf sinks env (put_view buf sinks env (codes "hello"))
        ∷ when_ok buf sinks env (end_line buf sinks env)
        ∷ when_ok buf sinks env (hand_out buf sinks env call info)
        ∷ [])
      fresh_frame

abbrev with_head : System K
with_head =
    worked K cleared 1 (put_header buf sinks env call info)
      (when_ok buf sinks env (put_view buf sinks env (codes "hello"))
        ∷ when_ok buf sinks env (end_line buf sinks env)
        ∷ when_ok buf sinks env (hand_out buf sinks env call info)
        ∷ [])
      (locals_of cleared)

abbrev with_payload : System K
with_payload =
    worked K with_head 1 (when_ok buf sinks env (put_view buf sinks env (codes "hello")))
      (when_ok buf sinks env (end_line buf sinks env)
        ∷ when_ok buf sinks env (hand_out buf sinks env call info)
        ∷ [])
      (locals_of with_head)

abbrev with_end : System K
with_end =
    worked K with_payload 1 (when_ok buf sinks env (end_line buf sinks env))
      (when_ok buf sinks env (hand_out buf sinks env call info) ∷ []) (locals_of with_payload)

abbrev logged : System K
logged =
    released K
      (worked K with_end 1 (when_ok buf sinks env (hand_out buf sinks env call info)) []
        (locals_of with_end))
      1

logged-Reach : Reach K 2 (app, quiet) talkers logged
unfolding steps takes_lock
logged-Reach =
    next
      (next
        (next
          (next
            (next
              (next (next here (acquire 1 hello_call [] (omega arith) refl refl refl refl))
                (work 1 (clear_buffer buf sinks env) _ fresh_frame (omega arith) refl))
              (work 1 (put_header buf sinks env call info) _ _ (omega arith) refl))
            (work 1 (when_ok buf sinks env (put_view buf sinks env (codes "hello"))) _ _
              (omega arith) refl))
          (work 1 (when_ok buf sinks env (end_line buf sinks env)) _ _ (omega arith) refl))
        (work 1 (when_ok buf sinks env (hand_out buf sinks env call info)) _ _ (omega arith) refl))
      (release 1 _ (omega arith) refl refl)

talkers-Every : (i : ℕ) → Every K (IsProper libc) (talkers i)
talkers-Every zero = (omega arith, tt)
talkers-Every (suc i) = (
  (
    λ e. ground (arith, e),
    record { positive = refl; after_epoch = omega arith; in_range = λ utc. either-InRange utc 5 },
    omega arith,
  ),
  tt,
)

logger-messages_example :
    (view_of buf sinks env logged.shared
      ≡ spec_calls buf sinks env logged.history (view_of buf sinks env (app, quiet)))
    × ((i : ℕ) → calls_of K i logged.history ++ logged.todo i ≡ talkers i)
unfolding logger
logger-messages_example =
    logger-messages buf sinks env lawful logged-Reach refl app-IsValid (omega arith) talkers-Every

-- Two copies of one shared sink over `stdout`.
abbrev copies : List (SharedSink × SinkCall)
copies =
    (shared_sink 0 7, write line) ∷ (shared_sink 0 7, flush) ∷ (shared_sink 0 7, write line) ∷ []

through-direct_example :
    through stdout_sink copies (stdout ∷ [], quiet)
    ≡ stored stdout_sink 0
        (stdout ∷ [])
        (direct stdout_sink (calls stdout_sink copies) (stdout, quiet))
through-direct_example =
    through-direct stdout_sink copies 0 (stdout ∷ []) stdout quiet (refl, (refl, (refl, tt))) refl
