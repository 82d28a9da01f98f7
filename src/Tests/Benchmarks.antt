-- ===== src/Tests/Benchmarks.antt =====
-- The benchmark of several threads at a concrete input.
use spdlite.Base.{ℕ, ◌+◌, ◌/◌, ◌∷◌, [], Bytes, ◌≡◌, refl, arith, codes, some, none}
use spdlite.Base.Exec.{ok}
use spdlite.Disk.{lookup}
use spdlite.Threads.{System, Later, here, next, acquire, start, update, calls_of}
use spdlite.Logger.Locked.{steps, takes_lock, fresh_frame}
use spdlite.Programs.Files.{over, files}
use spdlite.Programs.{env}
use spdlite.Bench.Latency.{make_basic_file_mt}
use spdlite.Bench.Latency.Threads.{Threads, hello, rounds}
use spdlite.Bench.Latency.Interleaved.{
  K, AsDocumented, Logged, Reached, mt_logger, opened, threads, basic_file_mt-lines,
}
use spdlite.Tests.Samples.{buf, lawful, either-InRange}
use spdlite.Tests.Programs.{host, world}

abbrev clocks : Threads
clocks = record { time = λ i k. 5012345678 + k; id = λ i. 4711 + i }

documented : AsDocumented host clocks buf lawful
documented = record {
  after_epoch = λ i k. omega arith;
  in_range = λ utc i k. either-InRange utc (clocks.time i k / 1000000000);
  fine = λ k. refl;
}

abbrev tmp : Bytes
tmp = codes "/tmp/spdlite_bench"

abbrev begun : System (K host clocks buf lawful)
begun =
    start (K host clocks buf lawful)
      (mt_logger host clocks buf lawful tmp, opened host clocks buf lawful tmp world [])
      (threads host clocks buf lawful 2 3)

-- Thread 1 is in its first call.
abbrev first : System (K host clocks buf lawful)
first = record begun {
  lock = some 1;
  running =
      update begun.running 1
        (some (steps buf (files buf lawful host) (env host) (hello host clocks 1 0), fresh_frame));
  todo = update begun.todo 1 (rounds host clocks 1 2 1);
  history = (1, hello host clocks 1 0) ∷ [];
}

first-Reached : Reached host clocks buf lawful documented tmp 2 3 world [] first
unfolding rounds takes_lock
first-Reached =
    next here (
      acquire 1 (hello host clocks 1 0) (rounds host clocks 1 2 1) (omega arith) refl refl refl
        refl)

basic_file_mt-lines_example :
    (make_basic_file_mt buf host tmp (over world [])
      ≡ (ok (mt_logger host clocks buf lawful tmp), opened host clocks buf lawful tmp world []))
    × (first.lock ≡ none → Logged host clocks buf lawful tmp 2 3 world [] first)
    × ((u : System (K host clocks buf lawful)) × Later (K host clocks buf lawful) 2 first u
        × Logged host clocks buf lawful tmp 2 3 world [] u
        × ((i : ℕ)
            → calls_of (K host clocks buf lawful) i u.history
              ≡ threads host clocks buf lawful 2 3 i))
unfolding lookup
basic_file_mt-lines_example =
    basic_file_mt-lines host clocks buf lawful documented tmp 2 3 world [] first refl first-Reached
