-- ===== src/Logger/Locked/Messages.antt =====
-- Threads that share a logger (include/spdlite/logger.h) against the specification of its calls:
-- the messages that its sinks get, one call after the other.
use mathlib.Core.Path.{subst}
use spdlite.Base.{
  ℕ, ◌/◌, ◌^◌, ◌≤◌, ◌<◌, ◌≡◌, ◌≢◌, sym, ap, arith, List, [], ◌∷◌, ◌++◌, Bytes, Bool, Option, none,
  some, length, IsRange,
}
use spdlite.Base.Int.{pos, pos_part}
use spdlite.Base.Exec.{Failure, state_of}
use spdlite.Level.{Level, n_levels, at_least}
use spdlite.Sink.{Sink, Tuple}
use spdlite.Buffer.{MemoryBuf, IsLawful}
use spdlite.Formatter.{LibC, break_down}
use spdlite.Formatter.Patch.{InRange}
use spdlite.Formatter.Widths.{header_bound}
use spdlite.Logger.{
  Env, Call, Formatting, Logger, with_header, add_view, add_formatted, deliver, push_all,
}
use spdlite.Logger.Spec.{Settings, message, settings, in_order, hand_over}
use spdlite.Logger.Handed.{dispatch-hand_over, flush_all-in_order}
use spdlite.Logger.Refine.{IsValid, Sound}
use spdlite.Logger.Calls.{with_header-begun, delivered, headed, ended-IsValid, push_all-put, same}
use spdlite.Logger.Setters.{set_name-IsValid, set_format_options-IsValid}
use spdlite.Logger.Locked.{LockedCall, log_view, log_format, rename, set_options, flush_sinks, body}

-- The time of a call is a second or more past the epoch, and the C library breaks it into fields of
-- their widths.
pub record IsTimed (c : LibC) (call : Call) : Type 0 where
  pub positive : call.now ≡ pos (pos_part call.now)
  pub after_epoch : 1000000000 ≤ pos_part call.now
  pub in_range : (utc : Bool) → InRange (break_down c utc (pos (pos_part call.now / 1000000000)))

-- A call that threads may make: the level is no sentinel, and names and views are short.
abbrev pub IsProper : LibC → LockedCall → Type 0
IsProper c (log_view call lvl sv) = (lvl ≢ n_levels) × IsTimed c call × IsRange sv
IsProper c (log_format call lvl fmt) = (lvl ≢ n_levels) × IsTimed c call
IsProper c (rename name) = length name < 2 ^ 62
IsProper c (set_options o) = Unit
IsProper c flush_sinks = Unit

module _ {W : Type 0} (B : MemoryBuf) (ss : List (Sink W)) (env : Env W) where
  -- The settings of the logger, and its sinks with all that they reach.
  abbrev pub View : Type 0
  View = Settings × (Tuple ss × W)

  -- A message with this payload is handed to the sinks.
  abbrev pub hand : Call → Level → Bytes → View → View
  hand call lvl payload (S, p) = (
    S,
    state_of (
        hand_over ss (at_least lvl S.flush_level)
          (message env S (pos_part call.now) call.thread lvl payload) p),
  )

  -- What a call is to do, with no buffer and no cached header.
  abbrev pub spec_call : LockedCall → View → View
  spec_call (log_view call lvl sv) v = hand call lvl sv v
  spec_call (log_format call lvl fmt) v = elim fmt.thrown [
    | none ↦ hand call lvl fmt.out v
    | some e ↦ v
  ]
  spec_call (rename name) (S, p) = (record S { name = name }, p)
  spec_call (set_options o) (S, p) = (record S { opts = o }, p)
  spec_call flush_sinks (S, p) = (S, state_of (in_order ss (λ s. s.flush) p))

  unfoldable pub spec_calls : List (ℕ × LockedCall) → View → View
  spec_calls [] v = v
  spec_calls ((i, c) ∷ h) v = spec_calls h (spec_call c v)

  abbrev pub view_of : Logger B ss × W → View
  view_of (l, w) = (settings B ss l, (l.sinks, w))

  module _ (L : IsLawful B) where
    -- A valid logger with a short name, seen as `v`.
    pub record Is (v : View) (p : Logger B ss × W) : Type 0 where
      pub valid : IsValid B L ss env p.0
      pub short : length p.0.name < 2 ^ 62
      pub shown : view_of p ≡ v

    sound :
        (l : Logger B ss) (call : Call) (lvl : Level)
        → lvl ≢ n_levels
        → IsTimed env.libc call
        → length l.name < 2 ^ 62
        → Sound B L ss env l (pos_part call.now) call.thread lvl
    sound l call lvl known timed short = record {
      known = known;
      after_epoch = timed.after_epoch;
      in_range = timed.in_range l.formatter.opts.utc;
      fits = omega (
        arith,
        header_bound env.libc l.formatter.opts l.name (pos_part call.now) call.thread lvl,
        short,
      );
    }

    module _ (l : Logger B ss) (w : W) (t raw : ℕ) (lvl : Level) (v : IsValid B L ss env l)
        (s : Sound B L ss env l t raw lvl) (short : length l.name < 2 ^ 62) where
      abbrev now : Call
      now = record { now = pos t; thread = raw }

      -- The message behind the payload, however it was put in.
      handed :
          (payload : Bytes) (b : B.State) (bv : L.IsValid b)
          → (B.contents b ≡ B.contents (headed B L ss env l t raw lvl v s).filled ++ payload)
          → Is (hand now lvl payload (view_of (l, w))) (
              state_of (
                deliver B ss env now lvl
                  (length (B.contents (headed B L ss env l t raw lvl v s).filled))
                  (record l { formatter = (headed B L ss env l t raw lvl v s).next; buf = b }, w)))
      handed payload b bv shown =
          let valid = ended-IsValid B L ss env l t raw lvl v s payload b bv shown in
          rw (delivered B L ss env l t raw lvl v s payload b bv shown w) (record {
            valid = record { buffer = valid.buffer; cache = valid.cache };
            short = short;
            shown = λ i. (
              same B L ss env l t raw lvl v s i,
              state_of (
                  dispatch-hand_over B ss env (at_least lvl l.flush_level)
                    (message env (settings B ss l) t raw lvl payload) (l.sinks, w) i),
            );
          })

      view_handed :
          (sv : Bytes)
          → IsRange sv
          → Is
              (hand now lvl sv (view_of (l, w)))
              (state_of (with_header B ss env now lvl (add_view B ss env now lvl sv) (l, w)))
      view_handed sv range =
          let h = headed B L ss env l t raw lvl v s in
          rw (with_header-begun B L ss env l t raw lvl v s) (
            handed sv (B.append h.filled sv) (L.append-IsValid h.filled sv range h.valid)
              (L.contents-append h.filled sv range h.valid))

      format_handed :
          (fmt : Formatting) (thrown : Option Failure)
          → let fmt' = record fmt { thrown = thrown } in
            Is
              (spec_call (log_format now lvl fmt') (view_of (l, w)))
              (state_of (with_header B ss env now lvl (add_formatted B ss env now lvl fmt') (l, w)))
      format_handed fmt none =
          let h = headed B L ss env l t raw lvl v s in
          let (bv, shown) = push_all-put B L ss env h.filled fmt.out h.valid in
          rw (with_header-begun B L ss env l t raw lvl v s)
            (handed fmt.out (push_all B ss env h.filled fmt.out) bv shown)
      format_handed fmt (some e) =
          let h = headed B L ss env l t raw lvl v s in
          rw (with_header-begun B L ss env l t raw lvl v s) (record {
            valid = record {
              buffer = (push_all-put B L ss env h.filled fmt.out h.valid).0;
              cache = h.cached;
            };
            short = short;
            shown = λ i. (same B L ss env l t raw lvl v s i, (l.sinks, w));
          })

    -- A call with its time as a number.
    timed_call : (call : Call) → IsTimed env.libc call → Call
    timed_call call timed = record { now = pos (pos_part call.now); thread = call.thread }

    same_call : (call : Call) (timed : IsTimed env.libc call) → timed_call call timed ≡ call
    unfolding timed_call
    same_call call timed i = record { now = sym timed.positive i; thread = call.thread }

    pub body-Is :
        (c : LockedCall) (p : Logger B ss × W)
        → IsProper env.libc c
        → IsValid B L ss env p.0
        → length p.0.name < 2 ^ 62
        → Is (spec_call c (view_of p)) (body B ss env c p)
    unfolding body timed_call
    body-Is (log_view call lvl sv) (l, w) (known, timed, range) v short =
        subst
          (λ c.
            Is (hand c lvl sv (view_of (l, w)))
              (state_of (with_header B ss env c lvl (add_view B ss env c lvl sv) (l, w))))
          (same_call call timed)
          (view_handed l w (pos_part call.now) call.thread lvl v
            (sound l call lvl known timed short) short sv range)
    body-Is (log_format call lvl fmt) (l, w) (known, timed) v short =
        subst
          (λ c.
            Is (spec_call (log_format c lvl fmt) (view_of (l, w)))
              (state_of (with_header B ss env c lvl (add_formatted B ss env c lvl fmt) (l, w))))
          (same_call call timed)
          (format_handed l w (pos_part call.now) call.thread lvl v
            (sound l call lvl known timed short) short fmt fmt.thrown)
    body-Is (rename name) (l, w) small v short =
        let (valid, renamed, kept) = set_name-IsValid B L ss env l name v in
        record {
          valid = valid;
          short = omega (arith, ap (λ S. length S.name) renamed, small);
          shown = λ i. (renamed i, (kept i, w));
        }
    body-Is (set_options o) (l, w) u v short =
        let (valid, optioned, kept) = set_format_options-IsValid B L ss env l o v in
        record {
          valid = valid;
          short = omega (arith, ap (λ S. length S.name) optioned, short);
          shown = λ i. (optioned i, (kept i, w));
        }
    body-Is flush_sinks (l, w) u v short = record {
      valid = record { buffer = v.buffer; cache = v.cache };
      short = short;
      shown = λ i. (settings B ss l, state_of (flush_all-in_order ss (l.sinks, w) i));
    }
