-- ===== src/Tests/Programs.antt =====
-- The programs at concrete inputs.
use spdlite.Base.{◌+◌, ◌≡◌, refl, arith, [], ◌++◌, codes, some, none, false}
use spdlite.Base.Exec.{ok}
use spdlite.Level.{info, warn}
use spdlite.Disk.{lookup, same_file, regular, FilePath}
use spdlite.Programs.{Host, World}
use spdlite.Programs.Said.{Proper}
use spdlite.Programs.Files.{over, line_at, lines_from}
use spdlite.Programs.Leaves.{Leaves, new_settings}
use spdlite.Example.{in_logs, shared_file_sink_example}
use spdlite.Example.Files.{shared_file_sink_example-lines}
use spdlite.Bench.Latency
use spdlite.Bench.Latency.{
  in_bench_dir, counter, bench, bench_basic_file_st, bench_disabled_runtime,
}
use spdlite.Bench.Latency.Files.{bench_basic_file_st-Leaves}
use spdlite.Tests.Samples.{libc, buf, lawful, quiet, either-InRange}

-- The formatting library is taken to append the text of the format string as it is.
abbrev pub host : Host
host = record {
  libc = libc;
  is_tty = λ _. false;
  clock = λ k. 5012345678 + k;
  thread = 4711;
  format = λ str args. record { out = str; thrown = none };
}

pub host-Proper : Proper host
host-Proper = record { after_epoch = λ k. omega arith; in_range = λ utc k. either-InRange utc 0 }

abbrev pub world : World
world = record {
  streams = quiet;
  disk = record { entries = []; faults = [] };
  heap = [];
  readings = 0;
}

shared_file_sink_example-lines_example :
    let out = shared_file_sink_example buf host (over world []) in
    (out.0 ≡ ok tt)
    × (lookup (in_logs (codes "shared.txt")) out.1.disk.entries
        ≡ some (
            regular (
              line_at host (new_settings (codes "network")) 0 info (codes "connection established")
              ++ line_at host (new_settings (codes "auth")) 1 warn (codes "invalid token"))))
    × ((q : FilePath)
        → same_file (in_logs (codes "shared.txt")) q ≡ false
        → lookup q out.1.disk.entries ≡ lookup q [])
    × (out.1.streams ≡ quiet)
unfolding lookup
shared_file_sink_example-lines_example =
    shared_file_sink_example-lines buf lawful host host-Proper world [] refl

bench_basic_file_st-Leaves_example :
    Leaves
      (in_bench_dir buf host (codes "/tmp/spdlite_bench") (codes "basic_st.log"))
      (lines_from buf lawful host (new_settings bench) info Latency.hello_text counter 3 0 0)
      3
      world
      []
      (bench_basic_file_st buf host (codes "/tmp/spdlite_bench") 3 (over world []))
unfolding lookup
bench_basic_file_st-Leaves_example =
    bench_basic_file_st-Leaves buf lawful host (codes "/tmp/spdlite_bench") 3 world [] host-Proper
      (λ k. refl) refl
