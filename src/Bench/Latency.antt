-- ===== src/Bench/Latency.antt =====
-- bench/latency.cpp: loggers in loops. The benchmark library gives the number of rounds `n` and, in
-- a benchmark that runs on several threads, the index of the thread; a static logger is a state of
-- its own, so the code of one thread is code on that logger.
pub mod Files
pub mod Threads
pub mod Interleaved
use spdlite.Base.{
  ℕ, suc, ◌+◌, ◌%◌, ◌<◌, List, [], ◌∷◌, ◌++◌, Bytes, codes, Bool, true, false, Option, none, some,
  ◌==◌, if◌then◌else◌,
}
use spdlite.Base.Exec.{Result, ok, fail, Exec, Done, pure, ◌>>=◌, ◌>>◌}
use spdlite.Level.{info, off}
use spdlite.Sink.{Sink}
use spdlite.Buffer.{MemoryBuf}
use spdlite.Formatter.{LibC, default_options}
use spdlite.Streams.{null_sink}
use spdlite.Console
use spdlite.Disk.{FilePath, eq_bytes}
use spdlite.FileSink.{truncate}
use spdlite.SharedSink.{SharedSink}
use spdlite.Logger.{Logger, logger, set_log_level}
use spdlite.Programs.{
  Arg, number, Host, World, on_streams, on_disk, on_heap, file, make_file, make_console, for_range,
  scope, on_first, on_second, change, view, say,
}
use spdlite.Bench.FormatterBench.{Seen, round, fresh, typical_text}

abbrev pub c_string : Bytes
c_string =
    codes
      "Lorem ipsum dolor sit amet, consectetur adipiscing elit. Vestibulum pharetra metus cursus "
    ++ codes
        "lacus placerat congue. Nulla egestas, mauris a tincidunt tempus, enim lectus volutpat mi, "
    ++ codes "eu consequat sem "
    ++ codes
        "libero nec massa. In dapibus ipsum a diam rhoncus gravida. Etiam non dapibus eros. Donec "
    ++ codes "fringilla dui sed "
    ++ codes
        "augue pretium, nec scelerisque est maximus. Nullam convallis, sem nec blandit maximus, "
    ++ codes "nisi turpis ornare "
    ++ codes
        "nisl, sit amet volutpat neque massa eu odio. Maecenas malesuada quam ex, posuere congue "
    ++ codes "nibh turpis duis."

abbrev pub hello_text : Bytes
hello_text = codes "Hello logger: msg number {}..............."

-- `++i` of a counter that starts at zero, in round `k`
abbrev pub counter : ℕ → List Arg
counter k = number (k + 1) ∷ []

abbrev pub bench : Bytes
bench = codes "bench"

module _ (B : MemoryBuf) (host : Host) where
  -- The loop that most benchmarks have.
  abbrev pub hello_loop : (ss : List (Sink World)) → ℕ → Exec (Logger B ss × World) Done
  hello_loop ss n = for_range n 0 (λ k. say B host ss info hello_text (counter k))

  abbrev pub nulls : List (Sink World)
  nulls = null_sink ∷ []

  abbrev pub null_logger : Logger B nulls
  null_logger = logger B nulls bench (tt, tt)

  unfoldable pub bench_null_sink_c_string : ℕ → Exec World Done
  bench_null_sink_c_string n =
      scope null_logger (for_range n 0 (λ _. view B host nulls info c_string))

  unfoldable pub bench_null_sink_formatted : ℕ → Exec World Done
  bench_null_sink_formatted n = scope null_logger (hello_loop nulls n)

  unfoldable pub bench_disabled_runtime : ℕ → Exec World Done
  bench_disabled_runtime n =
      scope null_logger (change (λ l. set_log_level B nulls l off) >> hello_loop nulls n)

  -- One thread on the static logger.
  unfoldable pub bench_null_sink_mt : ℕ → Exec (Logger B nulls × World) Done
  bench_null_sink_mt n = hello_loop nulls n

  abbrev pub colors : List (Sink World)
  colors = on_streams (Console.sink B) ∷ []

  abbrev pub color_logger : Logger B colors
  color_logger = logger B colors bench (make_console B host, tt)

  unfoldable pub bench_color_sink_st : ℕ → Exec World Done
  bench_color_sink_st n = scope color_logger (hello_loop colors n)

  unfoldable pub bench_color_sink_mt : ℕ → Exec (Logger B colors × World) Done
  bench_color_sink_mt n = hello_loop colors n

  abbrev pub files : List (Sink World)
  files = on_disk file ∷ []

  -- `bench_dir() / name`; `dir` is `std::filesystem::temp_directory_path() / "spdlite_bench"`.
  module _ (dir : Bytes) where
    abbrev pub in_bench_dir : Bytes → FilePath
    in_bench_dir name = record { parent_path = dir; filename = name }

    unfoldable pub bench_basic_file_st : ℕ → Exec World Done
    bench_basic_file_st n = make_file (in_bench_dir (codes "basic_st.log")) truncate >>= λ s.
        scope (logger B files bench (s, tt)) (hello_loop files n)

    -- The static logger, made by the thread that comes first.
    unfoldable pub make_basic_file_mt : Exec World (Logger B files)
    make_basic_file_mt = make_file (in_bench_dir (codes "basic_mt.log")) truncate >>= λ s.
        pure (logger B files bench (s, tt))

  unfoldable pub bench_basic_file_mt : ℕ → Exec (Logger B files × World) Done
  bench_basic_file_mt n = hello_loop files n

  abbrev pub shareds : List (Sink World)
  shareds = on_heap ∷ []

  abbrev pub shared_loggers : SharedSink → Logger B shareds × Logger B shareds
  shared_loggers wrapped = (
    logger B shareds (codes "bench_a") (wrapped, tt),
    logger B shareds (codes "bench_b") (wrapped, tt),
  )

  -- `log_a` and `log_b` are the two loggers; the thread with an odd index takes `log_a`.
  unfoldable pub bench_shared_file_mt :
      ℕ → ℕ → Exec ((Logger B shareds × Logger B shareds) × World) Done
  bench_shared_file_mt thread_index n =
      if thread_index % 2 == 1
      then on_first (hello_loop shareds n)
      else on_second (hello_loop shareds n)

  unfoldable pub bench_formatter_only : ℕ → ℕ → Result Done × Seen B host.libc false host.thread
  bench_formatter_only n now =
      for_range n 0 (λ i. round B host.libc false host.thread now typical_text)
        (fresh B host.libc false host.thread bench default_options)

-- What `main` registers: the benchmark by its name in the source, its threads if it says so, and
-- whether it takes the real time.
pub data Benchmark : Type 0 where
  disabled_runtime null_sink_c_string null_sink_formatted formatter_only color_sink_st null_sink_mt
        color_sink_mt basic_file_st basic_file_mt shared_file_mt :
      Benchmark

pub record Registration : Type 0 where
  pub name : Bytes
  pub code : Benchmark
  pub threads : Option ℕ
  pub real_time : Bool

abbrev pub register_benchmark : Bytes → Benchmark → Registration
register_benchmark name code = record {
  name = name;
  code = code;
  threads = none;
  real_time = false;
}

abbrev pub use_real_time : Registration → Registration
use_real_time r = record r { real_time = true }

abbrev pub on_threads : ℕ → Registration → Registration
on_threads n r = record r { threads = some n; real_time = true }

abbrev pub n_threads : ℕ
n_threads = 4

abbrev pub always_registered : List Registration
always_registered =
    register_benchmark (codes "disabled-at-runtime") disabled_runtime
    ∷ register_benchmark (codes "null_sink_st (500_bytes c_str)") null_sink_c_string
    ∷ register_benchmark (codes "null_sink_st") null_sink_formatted
    ∷ register_benchmark (codes "formatter_only") formatter_only
    ∷ use_real_time (register_benchmark (codes "color_sink_st") color_sink_st)
    ∷ []

abbrev pub registered_in_full : List Registration
registered_in_full =
    on_threads 1 (register_benchmark (codes "null_sink_mt") null_sink_mt)
    ∷ on_threads n_threads (register_benchmark (codes "null_sink_mt") null_sink_mt)
    ∷ on_threads 1 (register_benchmark (codes "color_sink_mt") color_sink_mt)
    ∷ on_threads n_threads (register_benchmark (codes "color_sink_mt") color_sink_mt)
    ∷ use_real_time (register_benchmark (codes "basic_file_st") basic_file_st)
    ∷ on_threads 1 (register_benchmark (codes "basic_file_mt") basic_file_mt)
    ∷ on_threads n_threads (register_benchmark (codes "basic_file_mt") basic_file_mt)
    ∷ on_threads 1 (register_benchmark (codes "shared_file_mt") shared_file_mt)
    ∷ on_threads n_threads (register_benchmark (codes "shared_file_mt") shared_file_mt)
    ∷ []

-- `argc > 1 && std::string(argv[1]) == "full"`
abbrev pub full_bench : List Bytes → Bool
full_bench (program ∷ arg ∷ rest) = eq_bytes arg (codes "full")
full_bench _ = false

-- What the program does in the end: the benchmarks that run, if any do, and the exit code.
-- `reopened` is whether `std::freopen` could send `stdout` to the null device.
unfoldable pub main : List Bytes → Bool → List Registration × ℕ
main argv reopened =
    let registered =
      if full_bench argv then always_registered ++ registered_in_full else always_registered in
    if reopened then (registered, 0) else ([], 1)
