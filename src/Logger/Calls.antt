-- ===== src/Logger/Calls.antt =====
-- The two ways to log a line (include/spdlite/logger.h), against the specification.
use mathlib.Core.Path.{subst}
use spdlite.Base.{
  ℕ, ◌≡◌, refl, sym, ap, ◌∙◌, List, [], ◌∷◌, ◌++◌, append_assoc, append-nil, Bytes, Bool, true,
  false, Option, none, some, if◌then◌else◌, IsRange, length,
}
use spdlite.Base.Int.{pos}
use spdlite.Base.Exec.{Result, ok, fail, Failure, Exec, Done, catch}
use spdlite.Level.{Level, at_least}
use spdlite.Sink.{Sink, Tuple}
use spdlite.Buffer.{MemoryBuf, IsLawful}
use spdlite.Formatter.{format_header}
use spdlite.Formatter.Layout.{tag_offset}
use spdlite.Formatter.Pure.{HasHeader, format_header-pure}
use spdlite.Logger.{
  Env, Call, Formatting, Logger, dispatch, handle, deliver, add_newline, with_header, add_view,
  add_formatted, push_all, log_sv_, log_fmt_args_, log_sv, log, should_log, on_sinks,
}
use spdlite.Logger.Caught.{caught, quiet}
use spdlite.Logger.Handed.{attempt, attempt_formatted, attempt-send, attempt_formatted-send}
use spdlite.Logger.Spec.{header, message, settings, send, send_formatted}
use spdlite.Logger.Refine.{IsValid, Sound, Agrees, deliver-message, newline_pushed}

module _ (B : MemoryBuf) (L : IsLawful B) {W : Type 0} (ss : List (Sink W)) (env : Env W) where
  module _ (l : Logger B ss) (t raw : ℕ) (lvl : Level) (v : IsValid B L ss env l)
      (s : Sound B L ss env l t raw lvl) where
    abbrev call : Call
    call = record { now = pos t; thread = raw }

    pub headed :
        HasHeader B L env.libc l.name l.formatter t lvl raw
          (B.clear l.buf)
          (format_header B env.libc l.formatter (pos t) lvl raw (B.clear l.buf))
    headed =
        format_header-pure v.cache t lvl raw s.known s.after_epoch s.in_range B L (B.clear l.buf)
          (L.clear-IsValid l.buf v.buffer) s.fits

    -- The logger behind the header.
    abbrev pub begun : Logger B ss
    begun = record l { formatter = headed.next; buf = headed.filled }

    pub with_header-begun :
        (body : Exec (Logger B ss × W) Done) (w : W)
        → with_header B ss env call lvl body (l, w) ≡ body (begun, w)
    unfolding with_header
    with_header-begun body w = rw (headed.returns, with_header)

    head_text : B.contents headed.filled ≡ header env (settings B ss l) t raw lvl
    head_text =
        headed.text
        ∙ ap (λ r. r ++ header env (settings B ss l) t raw lvl) (L.contents-clear l.buf v.buffer)

    pub same : settings B ss begun ≡ settings B ss l
    same =
        ap
          (λ o. record {
            name = l.name;
            log_level = l.log_level;
            flush_level = l.flush_level;
            opts = o;
          })
          headed.same_opts

    -- From the end of the payload on, whatever put it in.
    module _ (payload : Bytes) (b : B.State) (bv : L.IsValid b)
        (shown : B.contents b ≡ B.contents headed.filled ++ payload) where
      abbrev pub filled : Logger B ss
      filled = record l { formatter = headed.next; buf = b }

      abbrev pub ended : Logger B ss
      ended = record l { formatter = headed.next; buf = add_newline B ss env b }

      pub ended-IsValid : IsValid B L ss env ended
      ended-IsValid = record {
        buffer = (newline_pushed B L ss env env.windows b bv).0;
        cache = headed.cached;
      }

      level_at : headed.next.level_offset ≡ tag_offset headed.next.opts l.name
      level_at = headed.level_at ∙ ap (λ o. tag_offset o l.name) (sym headed.same_opts)

      pub delivered :
          (w : W)
          → deliver B ss env call lvl (length (B.contents headed.filled)) (filled, w)
            ≡ on_sinks B ss
                (dispatch B ss env
                  (at_least lvl l.flush_level)
                  (message env (settings B ss l) t raw lvl payload))
                (ended, w)
      delivered w =
          deliver-message B L ss env filled t raw lvl (B.contents headed.filled) payload bv shown
            (head_text ∙ ap (λ z. header env z t raw lvl) (sym same)) level_at w
          ∙ ap
              (λ z.
                on_sinks B ss
                  (dispatch B ss env (at_least lvl l.flush_level) (message env z t raw lvl payload))
                  (ended, w))
              same

      agrees :
          (w : W)
          → let out = deliver B ss env call lvl (length (B.contents headed.filled)) (filled, w) in
            Agrees B L ss env l
              (catch (handle B ss env) out.0 out.1)
              (attempt B ss env (settings B ss l) t raw lvl payload (l.sinks, w))
      agrees w = rw delivered (
          let d =
            dispatch B ss env (at_least lvl l.flush_level)
              (message env (settings B ss l) t raw lvl payload) (l.sinks, w) in
          caught B L ss env l ended d.0 d.1.0 d.1.1 same ended-IsValid)

    -- A call with a plain view, against the same on the sinks alone.
    pub log_sv_-attempted :
        (sv : Bytes) (w : W)
        → IsRange sv
        → Agrees B L ss env l
            (log_sv_ B ss env call lvl sv (l, w))
            (attempt B ss env (settings B ss l) t raw lvl sv (l.sinks, w))
    unfolding log_sv_
    log_sv_-attempted sv w range =
        quiet B L ss env l (with_header B ss env call lvl (add_view B ss env call lvl sv) (l, w)) _
          (rw with_header-begun (
            agrees sv (B.append headed.filled sv)
              (L.append-IsValid headed.filled sv range headed.valid)
              (L.contents-append headed.filled sv range headed.valid) w))

  pub push_all-put :
      (b : B.State) (s : Bytes)
      → L.IsValid b
      → L.IsValid (push_all B ss env b s) × (B.contents (push_all B ss env b s) ≡ B.contents b ++ s)
  unfolding push_all
  push_all-put b [] v = (v, sym (append-nil (B.contents b)))
  push_all-put b (c ∷ s) v =
      let (v', e) = push_all-put (B.push_back b c) s (L.push_back-IsValid b c v) in
      (
        v',
        e ∙ ap (λ r. r ++ s) (L.contents-push_back b c v) ∙ append_assoc (B.contents b) (c ∷ []) s,
      )

  module _ (l : Logger B ss) (t raw : ℕ) (lvl : Level) (v : IsValid B L ss env l)
      (s : Sound B L ss env l t raw lvl) where
    abbrev now : Call
    now = record { now = pos t; thread = raw }

    abbrev start :
        HasHeader B L env.libc l.name l.formatter t lvl raw
          (B.clear l.buf)
          (format_header B env.libc l.formatter (pos t) lvl raw (B.clear l.buf))
    start = headed l t raw lvl v s

    abbrev pushed : Bytes → B.State
    pushed out = push_all B ss env start.filled out

    -- The formatting library ends normally, or it throws.
    formatted :
        (fmt : Formatting) (thrown : Option Failure) (w : W)
        → let fmt' = record fmt { thrown = thrown } in
          let m = add_formatted B ss env now lvl fmt' (begun l t raw lvl v s, w) in
          Agrees B L ss env l
            (catch (handle B ss env) m.0 m.1)
            (attempt_formatted B ss env (settings B ss l) t raw lvl fmt' (l.sinks, w))
    formatted fmt none w =
        let (bv, shown) = push_all-put start.filled fmt.out start.valid in
        agrees l t raw lvl v s fmt.out (pushed fmt.out) bv shown w
    formatted fmt (some e) w =
        caught B L ss env l (record l { formatter = start.next; buf = pushed fmt.out }) (fail e)
          l.sinks w (same l t raw lvl v s)
          (record {
            buffer = (push_all-put start.filled fmt.out start.valid).0;
            cache = start.cached;
          })

    -- A call with a format string, whether formatting throws or not.
    pub log_fmt_args_-attempted :
        (fmt : Formatting) (w : W)
        → Agrees B L ss env l
            (log_fmt_args_ B ss env now lvl fmt (l, w))
            (attempt_formatted B ss env (settings B ss l) t raw lvl fmt (l.sinks, w))
    unfolding log_fmt_args_
    log_fmt_args_-attempted fmt w =
        quiet B L ss env l
          (with_header B ss env now lvl (add_formatted B ss env now lvl fmt) (l, w)) _
          (rw (with_header-begun l t raw lvl v s) (formatted fmt fmt.thrown w))

    -- A call below the level does nothing.
    gated :
        (b : Bool) (m : Exec (Logger B ss × W) Done) (spec : Exec (Tuple ss × W) Done) (w : W)
        → Agrees B L ss env l (m (l, w)) (spec (l.sinks, w))
        → Agrees B L ss env l
            (if b then m (l, w) else (ok tt, (l, w)))
            (if b then spec (l.sinks, w) else (ok tt, (l.sinks, w)))
    gated true m spec w h = h
    gated false m spec w h = record {
      result = refl;
      sinks = refl;
      world = refl;
      same_settings = refl;
      valid = v;
    }

    pub log_sv-attempted :
        (sv : Bytes) (w : W)
        → IsRange sv
        → Agrees B L ss env l (log_sv B ss env now lvl sv (l, w)) (
            if at_least lvl l.log_level
            then attempt B ss env (settings B ss l) t raw lvl sv (l.sinks, w)
            else (ok tt, (l.sinks, w)))
    unfolding log_sv should_log
    log_sv-attempted sv w range =
        gated (at_least lvl l.log_level) (log_sv_ B ss env now lvl sv)
          (attempt B ss env (settings B ss l) t raw lvl sv) w
          (log_sv_-attempted l t raw lvl v s sv w range)

    pub log-attempted :
        (fmt : Formatting) (w : W)
        → Agrees B L ss env l (log B ss env now lvl fmt (l, w)) (
            if at_least lvl l.log_level
            then attempt_formatted B ss env (settings B ss l) t raw lvl fmt (l.sinks, w)
            else (ok tt, (l.sinks, w)))
    unfolding log should_log
    log-attempted fmt w =
        gated (at_least lvl l.log_level) (log_fmt_args_ B ss env now lvl fmt)
          (attempt_formatted B ss env (settings B ss l) t raw lvl fmt) w
          (log_fmt_args_-attempted fmt w)

    abbrev gated_to : Result Done × (Tuple ss × W) → W → Result Done × (Tuple ss × W)
    gated_to out w = if at_least lvl l.log_level then out else (ok tt, (l.sinks, w))

    -- A call of a valid logger with a plain view, shorter than 2^63 bytes, agrees with the
    -- specification: below the level it does nothing; otherwise the sinks get in order one message
    -- made of the documented header, that payload and the newline, and an exception of a sink is
    -- reported and swallowed; the logger stays valid with the same settings. The level is no
    -- sentinel, the clock is a second or more past the epoch, the C library breaks it into fields
    -- of their widths, and the header is shorter than 2^63 bytes.
    pub log_sv-Agrees :
        (sv : Bytes) (w : W)
        → IsRange sv
        → Agrees B L ss env l (log_sv B ss env now lvl sv (l, w)) (
            if at_least lvl l.log_level
            then send B ss env (settings B ss l) t raw lvl sv (l.sinks, w)
            else (ok tt, (l.sinks, w)))
    log_sv-Agrees sv w range =
        subst (λ o. Agrees B L ss env l (log_sv B ss env now lvl sv (l, w)) (gated_to o w))
          (attempt-send B ss env (settings B ss l) t raw lvl sv (l.sinks, w))
          (log_sv-attempted sv w range)

    -- A call of a valid logger with a format string agrees with the specification: below the level
    -- it does nothing; otherwise the sinks get in order one message whose line is the documented
    -- header, the payload and the newline, or an exception of the formatting or of a sink is
    -- reported and swallowed; the logger stays valid with the same settings. The level is no
    -- sentinel, the clock is a second or more past the epoch, the C library breaks it into fields
    -- of their widths, and the header is shorter than 2^63 bytes.
    pub log-Agrees :
        (fmt : Formatting) (w : W)
        → Agrees B L ss env l (log B ss env now lvl fmt (l, w)) (
            if at_least lvl l.log_level
            then send_formatted B ss env (settings B ss l) t raw lvl fmt (l.sinks, w)
            else (ok tt, (l.sinks, w)))
    log-Agrees fmt w =
        subst (λ o. Agrees B L ss env l (log B ss env now lvl fmt (l, w)) (gated_to o w))
          (attempt_formatted-send B ss env (settings B ss l) t raw lvl fmt (l.sinks, w))
          (log-attempted fmt w)
