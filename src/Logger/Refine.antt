-- ===== src/Logger/Refine.antt =====
-- The logger (include/spdlite/logger.h) and its specification: validity and agreement.
use spdlite.Base.{
  ℕ, ◌-◌, ◌/◌, ◌≤◌, ◌≡◌, ◌≢◌, refl, ap, ◌∙◌, arith, List, [], ◌∷◌, ◌++◌, append_assoc, Bytes, Bool,
  true, false, if◌then◌else◌, IsRange, length, length-append, take, drop, take-append, drop-append,
}
use spdlite.Base.Int.{pos}
use spdlite.Base.Exec.{Result, Done}
use spdlite.Level.{Level, n_levels, at_least}
use spdlite.Message.{LogMsg}
use spdlite.Sink.{Sink, Tuple}
use spdlite.Buffer.{MemoryBuf, IsLawful}
use spdlite.Formatter.{break_down}
use spdlite.Formatter.Layout.{tag_offset}
use spdlite.Formatter.Cache.{Cached}
use spdlite.Formatter.Patch.{InRange}
use spdlite.Logger.{Env, Logger, dispatch, deliver, add_newline, should_flush, on_sinks}
use spdlite.Logger.Spec.{newline, header, message, settings}

module _ (B : MemoryBuf) (L : IsLawful B) {W : Type 0} (ss : List (Sink W)) (env : Env W) where
  -- The buffer is usable, and the cached header is that of the logger's name.
  pub record IsValid (l : Logger B ss) : Type 0 where
    pub buffer : L.IsValid l.buf
    pub cache : Cached env.libc l.name l.formatter

  -- What holds when a call is made: the level is no sentinel, the clock is a second or more past
  -- the epoch, the C library's fields have their widths, and the header is a range of memory.
  pub record Sound (l : Logger B ss) (t raw : ℕ) (lvl : Level) : Type 0 where
    pub known : lvl ≢ n_levels
    pub after_epoch : 1000000000 ≤ t
    pub in_range : InRange (break_down env.libc l.formatter.opts.utc (pos (t / 1000000000)))
    pub fits : IsRange (header env (settings B ss l) t raw lvl)

  -- The outcome of a call against that of the specification: the same result, sinks and world, the
  -- same settings, and a logger that is valid again.
  pub record Agrees (l : Logger B ss) (out : Result Done × (Logger B ss × W))
      (spec : Result Done × (Tuple ss × W)) : Type 0 where
    pub result : out.0 ≡ spec.0
    pub sinks : out.1.0.sinks ≡ spec.1.0
    pub world : out.1.1 ≡ spec.1.1
    pub same_settings : settings B ss out.1.0 ≡ settings B ss l
    pub valid : IsValid out.1.0

  put-IsValid :
      (b : B.State) (c : ℕ) (s : Bytes)
      → L.IsValid b
      → B.contents b ≡ s
      → L.IsValid (B.push_back b c) × (B.contents (B.push_back b c) ≡ s ++ c ∷ [])
  put-IsValid b c s v e =
      (L.push_back-IsValid b c v, L.contents-push_back b c v ∙ ap (λ r. r ++ c ∷ []) e)

  pub newline_pushed :
      (windows : Bool) (b : B.State)
      → L.IsValid b
      → let b' = B.push_back (if windows then B.push_back b 13 else b) 10 in
        L.IsValid b' × (B.contents b' ≡ B.contents b ++ newline windows)
  newline_pushed false b v = put-IsValid b 10 (B.contents b) v refl
  newline_pushed true b v =
      let (v', e) = put-IsValid b 13 (B.contents b) v refl in
      let (v'', e') = put-IsValid (B.push_back b 13) 10 (B.contents b ++ 13 ∷ []) v' e in
      (v'', e' ∙ append_assoc (B.contents b) (13 ∷ []) (10 ∷ []))

  -- The views that `deliver` cuts out of the buffer.
  module _ (l : Logger B ss) (t raw : ℕ) (lvl : Level) (head payload : Bytes) (v : L.IsValid l.buf)
      (shown : B.contents l.buf ≡ head ++ payload)
      (same_head : head ≡ header env (settings B ss l) t raw lvl)
      (level_at : l.formatter.level_offset ≡ tag_offset l.formatter.opts l.name) where
    abbrev ended : B.State
    ended = add_newline B ss env l.buf

    line : B.contents ended ≡ head ++ (payload ++ newline env.windows)
    line =
        (newline_pushed env.windows l.buf v).1
        ∙ ap (λ r. r ++ newline env.windows) shown
        ∙ append_assoc head payload (newline env.windows)

    view_of_payload :
        take (length (B.contents l.buf) - length head) (drop (length head) (B.contents ended))
        ≡ payload
    view_of_payload =
        ap (λ r. take (length (B.contents l.buf) - length head) r)
          (ap (λ r. drop (length head) r) line
            ∙ drop-append head (payload ++ newline env.windows) (length head) refl)
        ∙ take-append payload (newline env.windows) _
            (omega (arith, ap length shown ∙ length-append head payload))

    pub deliver-message :
        (w : W)
        → deliver B ss env (record { now = pos t; thread = raw }) lvl (length head) (l, w)
          ≡ on_sinks B ss
              (dispatch B ss env
                (at_least lvl l.flush_level)
                (message env (settings B ss l) t raw lvl payload))
              (record l { buf = ended }, w)
    unfolding deliver message should_flush
    deliver-message w =
        ap
          (λ m.
            on_sinks B ss (dispatch B ss env (at_least lvl l.flush_level) m)
              (record l { buf = ended }, w))
          same_message
      where
        same_message :
            ◌≡◌ {A = LogMsg}
              (record {
                time = pos t;
                logger_name = l.name;
                log_level = lvl;
                formatted = B.contents ended;
                payload =
                    take
                      (length (B.contents l.buf) - length head)
                      (drop (length head) (B.contents ended));
                level_offset = l.formatter.level_offset;
              })
              (message env (settings B ss l) t raw lvl payload)
        same_message = λ i. record {
          time = pos t;
          logger_name = l.name;
          log_level = lvl;
          formatted = (line ∙ ap (λ h. h ++ (payload ++ newline env.windows)) same_head) i;
          payload = view_of_payload i;
          level_offset = level_at i;
        }
