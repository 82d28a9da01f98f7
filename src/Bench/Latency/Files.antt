-- ===== src/Bench/Latency/Files.antt =====
-- What the benchmarks of bench/latency.cpp leave behind them.
use spdlite.Base.{ℕ, ◌≡◌, refl, arith, [], Bytes, codes, some, none}
use spdlite.Level.{info}
use spdlite.Buffer.{MemoryBuf, IsLawful}
use spdlite.Disk.{Entries, lookup}
use spdlite.FileSink.{truncate}
use spdlite.FileSink.Text.{kept}
use spdlite.Programs.{Host, World}
use spdlite.Programs.Said.{Proper}
use spdlite.Programs.Files.{over, files, lines_from, for_range-Logged}
use spdlite.Programs.Leaves.{Leaves, new_settings, new-Ready, file_program}
use spdlite.Bench.Latency.{
  hello_text, counter, bench, hello_loop, in_bench_dir, bench_basic_file_st,
}

module _ (B : MemoryBuf) (L : IsLawful B) (host : Host) where
  -- For any number of rounds, the benchmark of a file on one thread ends normally, leaves in its
  -- file exactly the lines of the rounds in order, and changes no other file. No call of the file
  -- system fails, the file is absent or regular before, the message formats without an exception,
  -- and the clock and the calendar are as documented.
  pub bench_basic_file_st-Leaves :
      (dir : Bytes) (n : ℕ) (w : World) (es : Entries)
      → Proper host
      → ((k : ℕ) → (host.format hello_text (counter k)).thrown ≡ none)
      → kept truncate (lookup (in_bench_dir B host dir (codes "basic_st.log")) es) ≡ some []
      → Leaves
          (in_bench_dir B host dir (codes "basic_st.log"))
          (lines_from B L host (new_settings bench) info hello_text counter n 0 w.readings)
          n
          w
          es
          (bench_basic_file_st B host dir n (over w es))
  unfolding bench_basic_file_st
  bench_basic_file_st-Leaves dir n w es proper fine h =
      let p = in_bench_dir B host dir (codes "basic_st.log") in
      file_program B L host bench p (hello_loop B host (files B L host) n) _ n w es h (λ es' at.
        for_range-Logged B L host proper (new_settings bench) info (λ e. ground (arith, e))
          (omega arith) refl hello_text counter n 0 p w es' [] _ fine at
          (new-Ready B L host bench p))
