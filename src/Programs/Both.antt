-- ===== src/Programs/Both.antt =====
-- A logger with a console sink and a file sink (include/spdlite/logger.h) in programs: one line
-- goes to both.
use spdlite.Base.{
  ◌^◌, ◌<◌, ◌≡◌, ◌≢◌, refl, List, [], ◌∷◌, ◌++◌, Bytes, Bool, true, false, some, length,
}
use spdlite.Base.Exec.{ok}
use spdlite.Level.{Level, n_levels, at_least}
use spdlite.Message.{LogMsg}
use spdlite.Sink.{Sink, write_all, flush_all, for_each}
use spdlite.Buffer.{MemoryBuf, IsLawful}
use spdlite.Streams.{stdout, fwrite_bytes}
use spdlite.Console
use spdlite.Console.{ConsoleSink}
use spdlite.Console.Stdout.{Shown, write-Shown_plain}
use spdlite.Disk.{FilePath, regular, Entries, lookup, put}
use spdlite.FileSink.Text.{write-calm}
use spdlite.Logger.{dispatch}
use spdlite.Logger.Spec.{Settings, message}
use spdlite.Programs.{Host, World, env, ticked, on_streams, on_disk, file}
use spdlite.Programs.Said.{given}
use spdlite.Programs.Files.{over, line_at, line-IsRange}
use spdlite.Programs.Stdout.{printed, console_line, tag_inside}
use spdlite.Programs.Printed.{IsTerminal}

module _ (B : MemoryBuf) (L : IsLawful B) (host : Host) (S : Settings) (lvl : Level)
    (known : lvl ≢ n_levels) (short : length S.name < 2 ^ 62) where
  abbrev pub both : List (Sink World)
  both = on_streams (Console.sink B) ∷ on_disk file ∷ []

  module _ (payload : Bytes) (s : ConsoleSink B) (p : FilePath) (w : World) (es : Entries)
      (old : Bytes) (small : length payload < 2 ^ 61) (plain : IsTerminal B L host s)
      (at : lookup p es ≡ some (regular old)) where
    abbrev msg : LogMsg
    msg = message (env host) S (host.clock w.readings) host.thread lvl payload

    -- The console sink behind the line.
    abbrev pub console_after : ConsoleSink B
    console_after = (Console.write B msg (s, w.streams)).1.0

    -- The line goes to stdout and to the end of the file.
    pub given-both :
        given B L host both S lvl payload (s, (record { filename = p }, tt)) (over w es) ≡ (
          ok tt,
          (
            (console_after, (record { filename = p }, tt)),
            over
                (printed (console_line host S w.readings lvl payload) 1 w)
                (put p (regular (old ++ line_at host S w.readings lvl payload)) es),
          ),
        )
    unfolding dispatch write_all flush_all for_each message fwrite_bytes
    given-both = by_flush (at_least lvl S.flush_level)
      where
        shown :
            Shown B L
              (host.is_tty stdout)
              s
              plain
              msg
              w.streams
              known
              (line-IsRange host S w.readings lvl payload short small)
              (tag_inside host S w.readings lvl payload known)
              (Console.write B msg (s, w.streams))
        shown =
            write-Shown_plain B L (host.is_tty stdout) s plain msg w.streams known
              (line-IsRange host S w.readings lvl payload short small)
              (tag_inside host S w.readings lvl payload known)

        by_flush :
            (flushes : Bool)
            → dispatch B both
                (env host)
                flushes
                msg
                ((s, (record { filename = p }, tt)), ticked host (over w es))
              ≡ (
                ok tt,
                (
                  (console_after, (record { filename = p }, tt)),
                  over
                      (printed (console_line host S w.readings lvl payload) 1 w)
                      (put p (regular (old ++ line_at host S w.readings lvl payload)) es),
                ),
              )
        by_flush true = rw (shown.returns, shown.streams, write-calm p es old msg at) refl
        by_flush false = rw (shown.returns, shown.streams, write-calm p es old msg at) refl
