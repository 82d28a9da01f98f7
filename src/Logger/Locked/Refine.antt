-- ===== src/Logger/Locked/Refine.antt =====
-- Threads that share a logger (include/spdlite/logger.h): what reaches the sinks, whatever the
-- interleaving of the threads.
use spdlite.Base.{ℕ, ◌^◌, ◌<◌, ◌≡◌, refl, ap, ◌∙◌, List, [], ◌∷◌, ◌++◌, none, length}
use spdlite.Sink.{Sink}
use spdlite.Buffer.{MemoryBuf, IsLawful}
use spdlite.Logger.{Env, Logger}
use spdlite.Logger.Refine.{IsValid}
use spdlite.Threads.{Calls, calls_of, Reach, System}
use spdlite.Threads.History.{Every, EveryMade, order-EveryMade}
use spdlite.Logger.Locked.{LockedCall, locked_calls, body, sequence}
use spdlite.Logger.Locked.Serial.{logger-serial}
use spdlite.Logger.Locked.Messages.{IsProper, spec_calls, view_of, Is, body-Is}

module _ {W : Type 0} (B : MemoryBuf) (ss : List (Sink W)) (env : Env W) where
  abbrev K : Calls
  K = locked_calls B ss env

  -- A call that a thread may make.
  abbrev pub Fit : LockedCall → Type 0
  Fit = IsProper env.libc

  module _ (L : IsLawful B) where
    sequence-Is :
        (h : List (ℕ × LockedCall)) (p : Logger B ss × W)
        → EveryMade K Fit h
        → IsValid B L ss env p.0
        → length p.0.name < 2 ^ 62
        → Is B ss env L (spec_calls B ss env h (view_of B ss env p)) (sequence B ss env h p)
    unfolding sequence spec_calls
    sequence-Is [] p proper v short = record {
      valid = record { buffer = v.buffer; cache = v.cache };
      short = short;
      shown = refl;
    }
    sequence-Is ((i, c) ∷ h) p (now, later) v short =
        let first = body-Is B ss env L c p now v short in
        let rest = sequence-Is h (body B ss env c p) later first.valid first.short in
        record {
          valid = record { buffer = rest.valid.buffer; cache = rest.valid.cache };
          short = rest.short;
          shown = rest.shown ∙ ap (spec_calls B ss env h) first.shown;
        }

    -- Threads that share a valid logger with a name shorter than 2^62 bytes, step by step in any
    -- interleaving: whenever the lock is free, the logger's settings and its sinks with all that
    -- they reach are what the specification gives for the calls that took the lock, one after the
    -- other: each logged line is one message of header, payload and newline, or none when its
    -- formatting throws. The reports of exceptions, which go to stderr behind the release of the
    -- lock, are not part of this. Each thread's calls stand in that order as the thread makes them.
    -- No call has the sentinel level; its time is a second or more past the epoch, and the C
    -- library breaks it into fields of their widths; new names are shorter than 2^62 bytes, and
    -- plain views shorter than 2^63.
    pub logger-messages :
        {n : ℕ} {l : Logger B ss} {w : W} {programs : ℕ → List LockedCall} {t : System K}
        → Reach K n (l, w) programs t
        → t.lock ≡ none
        → IsValid B L ss env l
        → length l.name < 2 ^ 62
        → ((i : ℕ) → Every K Fit (programs i))
        → (view_of B ss env t.shared ≡ spec_calls B ss env t.history (view_of B ss env (l, w)))
          × ((i : ℕ) → calls_of K i t.history ++ t.todo i ≡ programs i)
    logger-messages {l = l} {w = w} {programs = programs} {t = t} r free v short proper =
        let (shared, order) = logger-serial B ss env r free in
        let made = order-EveryMade K Fit t.history t.todo programs order proper in
        (ap (view_of B ss env) shared ∙ (sequence-Is t.history (l, w) made v short).shown, order)
