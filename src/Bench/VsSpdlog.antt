-- ===== src/Bench/VsSpdlog.antt =====
-- bench/vs_spdlog.cpp: the same loops on spdlite and on spdlog. spdlog is another library: what its
-- sinks and loggers do is a parameter.
pub mod Main
use spdlite.Base.{
  ℕ, ◌+◌, ◌*◌, List, [], ◌∷◌, ◌++◌, Bytes, codes, Bool, true, false, Option, none, some,
  if◌then◌else◌,
}
use spdlite.Base.Exec.{Result, ok, fail, Exec, Done, pure, ◌>>=◌, ◌>>◌}
use spdlite.Level.{info, off}
use spdlite.Sink.{Sink}
use spdlite.Buffer.{MemoryBuf}
use spdlite.Streams.{null_sink}
use spdlite.Console
use spdlite.Disk.{FilePath, Entries, Disk, faulty, stepped, succeeds, eq_bytes}
use spdlite.FileSink.{truncate}
use spdlite.Logger.{Logger, logger, set_log_level}
use spdlite.Programs.{
  Arg, Host, World, on_streams, on_disk, file, rotating, make_file, make_rotating, make_console,
  for_range, scope, change, view,
}
use spdlite.Bench.FormatterBench.{long_text}
use spdlite.Bench.Latency.{hello_text, counter, bench, hello_loop, full_bench}
use spdlite.Bench.Comparison.{Double, Run, print_comparison}

-- The sinks of spdlog that are made.
pub data SpdlogSink : Type 0 where
  null_sink_st stdout_color_sink_st stdout_color_sink_mt : SpdlogSink
  basic_file_sink_st basic_file_sink_mt : FilePath → Bool → SpdlogSink
  rotating_file_sink_st rotating_file_sink_mt : FilePath → ℕ → ℕ → SpdlogSink

-- What is used of spdlog: a logger on a sink, its level, and `info` with and without arguments.
pub record Spdlog : Type 1 where
  pub SpdlogLogger : Type 0
  pub make : SpdlogSink → Bytes → Exec World SpdlogLogger
  pub set_level_off : SpdlogLogger → SpdlogLogger
  pub info : Bytes → List Arg → Exec (SpdlogLogger × World) Done
  pub info_view : Bytes → Exec (SpdlogLogger × World) Done

abbrev pub rot_max_size : ℕ
rot_max_size = 100 * 1024 * 1024

abbrev pub rot_max_files : ℕ
rot_max_files = 3

-- The entries outside a directory.
unfoldable pub outside : Bytes → Entries → Entries
outside dir [] = []
outside dir ((p, n) ∷ es) =
    let rest = outside dir es in if eq_bytes p.parent_path dir then rest else (p, n) ∷ rest

-- `remove_all(dir, ec)` on a directory that has no directories in it; when it fails nothing is gone.
unfoldable pub remove_all : Bytes → Disk → Disk
remove_all dir d = if faulty d then stepped d d.entries else stepped d (outside dir d.entries)

module _ (B : MemoryBuf) (host : Host) (S : Spdlog) where
  -- The loop on spdlog.
  abbrev pub spdlog_loop : ℕ → Exec (S.SpdlogLogger × World) Done
  spdlog_loop n = for_range n 0 (λ k. S.info hello_text (counter k))

  abbrev pub spdlog_on : SpdlogSink → ℕ → Exec World Done
  spdlog_on sink n = S.make sink bench >>= λ l. scope l (spdlog_loop n)

  abbrev pub nulls : List (Sink World)
  nulls = null_sink ∷ []

  abbrev pub null_logger : Logger B nulls
  null_logger = logger B nulls bench (tt, tt)

  unfoldable pub spdlite_disabled : ℕ → Exec World Done
  spdlite_disabled n =
      scope null_logger (change (λ l. set_log_level B nulls l off) >> hello_loop B host nulls n)

  unfoldable pub spdlog_disabled : ℕ → Exec World Done
  spdlog_disabled n =
      S.make null_sink_st bench >>= λ l. scope l (change (λ x. S.set_level_off x) >> spdlog_loop n)

  unfoldable pub spdlite_null_fmt_st : ℕ → Exec World Done
  spdlite_null_fmt_st n = scope null_logger (hello_loop B host nulls n)

  unfoldable pub spdlog_null_fmt_st : ℕ → Exec World Done
  spdlog_null_fmt_st n = spdlog_on null_sink_st n

  unfoldable pub spdlite_null_cstr_st : ℕ → Exec World Done
  spdlite_null_cstr_st n = scope null_logger (for_range n 0 (λ _. view B host nulls info long_text))

  unfoldable pub spdlog_null_cstr_st : ℕ → Exec World Done
  spdlog_null_cstr_st n =
      S.make null_sink_st bench >>= λ l. scope l (for_range n 0 (λ _. S.info_view long_text))

  abbrev pub colors : List (Sink World)
  colors = on_streams (Console.sink B) ∷ []

  unfoldable pub spdlite_color_st : ℕ → Exec World Done
  spdlite_color_st n =
      scope (logger B colors bench (make_console B host, tt)) (hello_loop B host colors n)

  unfoldable pub spdlog_color_st : ℕ → Exec World Done
  spdlog_color_st n = spdlog_on stdout_color_sink_st n

  -- A static logger is a state of its own; these are one thread's code on it.
  unfoldable pub spdlite_color_mt : ℕ → Exec (Logger B colors × World) Done
  spdlite_color_mt n = hello_loop B host colors n

  unfoldable pub spdlog_color_mt : ℕ → Exec (S.SpdlogLogger × World) Done
  spdlog_color_mt n = spdlog_loop n

  abbrev pub files : List (Sink World)
  files = on_disk file ∷ []

  abbrev pub rotatings : List (Sink World)
  rotatings = on_disk rotating ∷ []

  unfoldable pub spdlite_file_mt : ℕ → Exec (Logger B files × World) Done
  spdlite_file_mt n = hello_loop B host files n

  unfoldable pub spdlog_file_mt : ℕ → Exec (S.SpdlogLogger × World) Done
  spdlog_file_mt n = spdlog_loop n

  unfoldable pub spdlite_rotating_file_mt : ℕ → Exec (Logger B rotatings × World) Done
  spdlite_rotating_file_mt n = hello_loop B host rotatings n

  unfoldable pub spdlog_rotating_file_mt : ℕ → Exec (S.SpdlogLogger × World) Done
  spdlog_rotating_file_mt n = spdlog_loop n

  -- `dir` is `bench_dir()`, and `rot` is `rot_dir()`, the directory `rot` below it.
  module _ (dir rot : Bytes) where
    abbrev pub in_dir : Bytes → FilePath
    in_dir name = record { parent_path = dir; filename = name }

    abbrev pub in_rot : Bytes → FilePath
    in_rot name = record { parent_path = rot; filename = name }

    unfoldable pub reset_rot_dir : Exec World Done
    reset_rot_dir w = (ok tt, record w { disk = (succeeds (remove_all rot w.disk)).1 })

    unfoldable pub spdlite_file_st : ℕ → Exec World Done
    spdlite_file_st n = make_file (in_dir (codes "vs_basic_st.log")) truncate >>= λ s.
        scope (logger B files bench (s, tt)) (hello_loop B host files n)

    unfoldable pub spdlog_file_st : ℕ → Exec World Done
    spdlog_file_st n =
        spdlog_on (basic_file_sink_st (in_dir (codes "vs_basic_st_spdlog.log")) true) n

    -- The static loggers, made by the thread that comes first.
    unfoldable pub make_spdlite_file_mt : Exec World (Logger B files)
    make_spdlite_file_mt = make_file (in_dir (codes "vs_basic_mt.log")) truncate >>= λ s.
        pure (logger B files bench (s, tt))

    unfoldable pub make_spdlog_file_mt : Exec World S.SpdlogLogger
    make_spdlog_file_mt =
        S.make (basic_file_sink_mt (in_dir (codes "vs_basic_mt_spdlog.log")) true) bench

    unfoldable pub spdlite_rotating_file_st : ℕ → Exec World Done
    spdlite_rotating_file_st n =
        reset_rot_dir
        >> (make_rotating (in_rot (codes "lite.txt")) rot_max_size rot_max_files >>= λ s.
            scope (logger B rotatings bench (s, tt)) (hello_loop B host rotatings n))

    unfoldable pub spdlog_rotating_file_st : ℕ → Exec World Done
    spdlog_rotating_file_st n =
        reset_rot_dir
        >> spdlog_on (rotating_file_sink_st (in_rot (codes "log.txt")) rot_max_size rot_max_files) n

    unfoldable pub make_spdlite_rotating_file_mt : Exec World (Logger B rotatings)
    make_spdlite_rotating_file_mt =
        reset_rot_dir
        >> (make_rotating (in_rot (codes "lite_mt.txt")) rot_max_size rot_max_files >>= λ s.
            pure (logger B rotatings bench (s, tt)))

    unfoldable pub make_spdlog_rotating_file_mt : Exec World S.SpdlogLogger
    make_spdlog_rotating_file_mt =
        reset_rot_dir
        >> S.make (rotating_file_sink_mt (in_rot (codes "log_mt.txt")) rot_max_size rot_max_files)
            bench
