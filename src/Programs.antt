-- ===== src/Programs.antt =====
-- Programs that use the library (example/example.cpp and the benchmarks in bench): the world that
-- they run in, the sinks on it, and what they call of a logger.
pub mod Said
pub mod Leaves
pub mod Shared
pub mod Files
pub mod Rolling
pub mod Stdout
pub mod Printed
pub mod Both
use spdlite.Base.{ℕ, zero, suc, ◌+◌, List, [], ◌∷◌, ◌++◌, Bytes, Bool, false, length, if◌then◌else◌}
use spdlite.Base.Int.{pos}
use spdlite.Base.Exec.{Result, ok, fail, Exec, Done, pure, bind, ◌>>=◌, ◌>>◌}
use spdlite.Level.{Level}
use spdlite.Sink.{Sink, Tuple}
use spdlite.Buffer.{MemoryBuf}
use spdlite.Formatter.{LibC}
use spdlite.Streams.{Stream, stdout, stderr, Streams, fwrite_bytes}
use spdlite.Console.{ConsoleSink, console_sink, automatic}
use spdlite.Disk.{FilePath, Disk}
use spdlite.FileSink.{FileSink, OpenMode, file_sink, file_write, file_flush}
use spdlite.Rotating
use spdlite.Rotating.{RotatingFileSink, rotating_file_sink}
use spdlite.SharedSink
use spdlite.Logger.{Env, Call, Formatting, Logger, should_log, log, log_sv}

-- An argument of a format string.
pub data Arg : Type 0 where
  text : Bytes → Arg
  number : ℕ → Arg

-- The machine: the calendar of the C library, `isatty`, the readings of the clock in nanoseconds
-- since the epoch, the thread's id, and the formatting library.
pub record Host : Type 0 where
  pub libc : LibC
  pub is_tty : Stream → Bool
  pub clock : ℕ → ℕ
  pub thread : ℕ
  pub format : Bytes → List Arg → Formatting

-- `heap` are the sinks that shared pointers lead to, and `readings` counts the readings of the clock
-- so far: each call of a logger that its level lets through has one.
pub record World : Type 0 where
  pub streams : Streams
  pub disk : Disk
  pub heap : List FileSink
  pub readings : ℕ

-- A sink on a part of the world.
abbrev pub lifted : {V W : Type 0} → (W → V) → (V → W → W) → Sink V → Sink W
lifted view change s = record {
  State = s.State;
  write = λ msg p. let (r, (x, v)) = s.write msg (p.0, view (p.1)) in (r, (x, change v (p.1)));
  flush = λ p. let (r, (x, v)) = s.flush (p.0, view (p.1)) in (r, (x, change v (p.1)));
}

abbrev pub on_streams : Sink Streams → Sink World
on_streams = lifted (λ w. w.streams) (λ v w. record w { streams = v })

abbrev pub on_disk : Sink Disk → Sink World
on_disk = lifted (λ w. w.disk) (λ v w. record w { disk = v })

abbrev pub file : Sink Disk
file = record { State = FileSink; write = file_write; flush = file_flush }

abbrev pub rotating : Sink Disk
rotating = record { State = RotatingFileSink; write = Rotating.write; flush = Rotating.flush }

-- A sink on the disk behind shared pointers.
abbrev pub on_heap : Sink World
on_heap =
    lifted (λ w. (w.heap, w.disk)) (λ v w. record w { heap = v.0; disk = v.1 })
      (SharedSink.sink file)

-- The sinks that a program makes: `file_sink{...}`, `rotating_file_sink{...}`, and
-- `std::make_shared<file_sink>(...)`, which gives the place of the new cell.
abbrev pub make_file : FilePath → OpenMode → Exec World FileSink
make_file path mode w = let (r, d) = file_sink path mode w.disk in (r, record w { disk = d })

abbrev pub make_rotating : FilePath → ℕ → ℕ → Exec World RotatingFileSink
make_rotating base max_size max_files w =
    let (r, (s, d)) = rotating_file_sink base max_size max_files w.disk in
    (bind r (λ _. ok s), record w { disk = d })

abbrev pub make_shared : FilePath → OpenMode → Exec World ℕ
make_shared path mode =
    make_file path mode >>= λ s w. (ok (length w.heap), record w { heap = w.heap ++ s ∷ [] })

-- `for (int i = first; ...; ++i)` with `count` rounds.
unfoldable pub for_range : {S : Type 0} → ℕ → ℕ → (ℕ → Exec S Done) → Exec S Done
for_range zero i body = pure tt
for_range (suc count) i body = body i >> for_range count (i + 1) body

module _ (host : Host) where
  -- The platform is not Windows; `std::fprintf(stderr, ...)` takes all bytes.
  abbrev pub env : Env World
  env = record {
    libc = host.libc;
    windows = false;
    report = λ s w. record w { streams = fwrite_bytes s stderr w.streams };
  }

  abbrev pub now : World → Call
  now w = record { now = pos (host.clock w.readings); thread = host.thread }

  abbrev pub ticked : World → World
  ticked w = record w { readings = w.readings + 1 }

-- A block with a local variable: it is made, used, and gone at the end.
abbrev pub scope : {X W : Type 0} → X → Exec (X × W) Done → Exec W Done
scope x body w = let (r, (x', w')) = body (x, w) in (r, w')

-- Code of one of two local variables.
abbrev pub on_first : {X Y W : Type 0} → Exec (X × W) Done → Exec ((X × Y) × W) Done
on_first m p = let (r, (x, w)) = m (p.0.0, p.1) in (r, ((x, p.0.1), w))

abbrev pub on_second : {X Y W : Type 0} → Exec (Y × W) Done → Exec ((X × Y) × W) Done
on_second m p = let (r, (y, w)) = m (p.0.1, p.1) in (r, ((p.0.0, y), w))

-- A setter.
abbrev pub change : {X W : Type 0} → (X → X) → Exec (X × W) Done
change f p = (ok tt, (f p.0, p.1))

module _ (B : MemoryBuf) (host : Host) where
  -- `console_sink{}`
  abbrev pub make_console : ConsoleSink B
  make_console = console_sink B automatic (host.is_tty stdout)

  module _ (ss : List (Sink World)) where
    -- A call, with the reading of the clock that it makes when the level lets it through.
    abbrev pub timed :
        Level → (Call → Exec (Logger B ss × World) Done) → Exec (Logger B ss × World) Done
    timed lvl f (l, w) = f (now host w) (l, if should_log B ss l lvl then ticked host w else w)

    -- `info("...")` and `info("...", args...)`, and the same on any level.
    abbrev pub view : Level → Bytes → Exec (Logger B ss × World) Done
    view lvl msg = timed lvl (λ call. log_sv B ss (env host) call lvl msg)

    abbrev pub say : Level → Bytes → List Arg → Exec (Logger B ss × World) Done
    say lvl str args = timed lvl (λ call. log B ss (env host) call lvl (host.format str args))
