-- ===== src/Programs/Shared.antt =====
-- Loggers on one shared file sink (include/spdlite/sinks/shared_sink.h) in programs.
use spdlite.Base.{
  ◌^◌, ◌<◌, ◌≡◌, ◌≢◌, refl, ap, ◌∙◌, List, [], ◌∷◌, ◌++◌, Bytes, Bool, true, false, some, IsRange,
  length, get_elem?, set, set_self,
}
use spdlite.Base.Exec.{ok}
use spdlite.Level.{Level, info, n_levels, at_least}
use spdlite.Sink.{Sink, write_all, flush_all, for_each}
use spdlite.Buffer.{MemoryBuf, IsLawful}
use spdlite.Message.{LogMsg}
use spdlite.Disk.{FilePath, Disk, regular, Entries, lookup, put}
use spdlite.FileSink.{FileSink}
use spdlite.FileSink.Text.{calm, write-calm}
use spdlite.SharedSink.{SharedSink, forward, shared_write, shared_flush}
use spdlite.Logger.{logger, dispatch}
use spdlite.Logger.Setters.{logger-IsValid}
use spdlite.Logger.Spec.{Settings, message}
use spdlite.Programs.{Host, World, env, ticked, on_heap, file, view}
use spdlite.Programs.Said.{Proper, Ready, given, log_sv-Said}
use spdlite.Programs.Files.{over, line_at}
use spdlite.Programs.Leaves.{new_settings}

-- One write through the pointer, on a calm disk.
shared_write-calm :
    (s : SharedSink) (p : FilePath) (heap : List FileSink) (es : Entries) (old : Bytes)
    (msg : LogMsg)
    → get_elem? heap s.sink_ ≡ some (record { filename = p })
    → lookup p es ≡ some (regular old)
    → shared_write file msg (s, (heap, calm es))
      ≡ (ok tt, (s, (heap, calm (put p (regular (old ++ msg.formatted)) es))))
unfolding shared_write
shared_write-calm s p heap es old msg cell at =
    rw (cell, forward)
      (ap (λ r. (r.0, (s, (set heap s.sink_ r.1.0, r.1.1)))) (write-calm p es old msg at)
        ∙ ap (λ h. (ok tt, (s, (h, calm (put p (regular (old ++ msg.formatted)) es)))))
            (set_self heap s.sink_ (record { filename = p }) cell))

shared_flush-calm :
    (s : SharedSink) (x : FileSink) (heap : List FileSink) (d : Disk)
    → get_elem? heap s.sink_ ≡ some x
    → shared_flush file (s, (heap, d)) ≡ (ok tt, (s, (heap, d)))
unfolding shared_flush
shared_flush-calm s x heap d cell =
    rw (cell, forward) (ap (λ h. (ok tt, (s, (h, d)))) (set_self heap s.sink_ x cell))

module _ (B : MemoryBuf) (L : IsLawful B) (host : Host) where
  abbrev pub shareds : List (Sink World)
  shareds = on_heap ∷ []

  -- The file behind the shared sink grows by the line; the cell stays as it is.
  pub given-shareds :
      (S : Settings) (lvl : Level) (payload : Bytes) (s : SharedSink) (p : FilePath) (w : World)
      (es : Entries) (old : Bytes)
      → get_elem? w.heap s.sink_ ≡ some (record { filename = p })
      → lookup p es ≡ some (regular old)
      → given B L host shareds S lvl payload (s, tt) (over w es) ≡ (
        ok tt,
        (
          (s, tt),
          over (ticked host w) (put p (regular (old ++ line_at host S w.readings lvl payload)) es),
        ),
      )
  unfolding dispatch write_all flush_all for_each message
  given-shareds S lvl payload s p w es old cell at = by_flush (at_least lvl S.flush_level)
    where
      by_flush :
          (flushes : Bool)
          → dispatch B shareds
              (env host)
              flushes
              (message (env host) S (host.clock w.readings) host.thread lvl payload)
              ((s, tt), ticked host (over w es))
            ≡ (
              ok tt,
              (
                (s, tt),
                over
                    (ticked host w)
                    (put p (regular (old ++ line_at host S w.readings lvl payload)) es),
              ),
            )
      by_flush true = rw (shared_write-calm s p w.heap es old _ cell at) (
          rw
            (shared_flush-calm s (record { filename = p }) w.heap
              (calm (put p (regular (old ++ line_at host S w.readings lvl payload)) es)) cell)
            refl)
      by_flush false = rw (shared_write-calm s p w.heap es old _ cell at) refl

  pub shared-Ready :
      (name : Bytes) (s : SharedSink)
      → Ready B L host shareds (new_settings name) (s, tt) (logger B shareds name (s, tt))
  unfolding logger
  shared-Ready name s =
      let (valid, same) = logger-IsValid B L shareds (env host) name (s, tt) in
      record { valid = valid; same = same; has = refl }

  -- A view that is logged through the pointer.
  pub shared_view :
      (proper : Proper host) (name : Bytes) (lvl : Level) (payload : Bytes) (s : SharedSink)
      (p : FilePath) (w : World) (es : Entries) (old : Bytes)
      → lvl ≢ n_levels
      → length name < 2 ^ 62
      → at_least lvl info ≡ true
      → IsRange payload
      → get_elem? w.heap s.sink_ ≡ some (record { filename = p })
      → lookup p es ≡ some (regular old)
      → let out = view B host shareds lvl payload (logger B shareds name (s, tt), over w es) in
        (out.0 ≡ ok tt)
        × (out.1.1
            ≡ over (ticked host w) (
                put p
                  (regular (old ++ line_at host (new_settings name) w.readings lvl payload))
                  es))
  shared_view proper name lvl payload s p w es old known short passes range cell at =
      let S = new_settings name in
      let e = given-shareds S lvl payload s p w es old cell at in
      let said =
        log_sv-Said B L host shareds proper S lvl known short payload (over w es) range
          (shared-Ready name s) passes (ap (λ z. z.0) e) in
      (said.returns, said.world ∙ ap (λ z. z.1.1) e)
