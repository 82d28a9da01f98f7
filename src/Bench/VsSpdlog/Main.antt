-- ===== src/Bench/VsSpdlog/Main.antt =====
-- What bench/vs_spdlog.cpp registers and prints.
use spdlite.Base.{
  ℕ, List, [], ◌∷◌, ◌++◌, Bytes, codes, Bool, true, false, Option, none, some, if◌then◌else◌,
}
use spdlite.Bench.Latency.{full_bench}
use spdlite.Bench.Comparison.{Double, Run, report_runs, print_comparison}

-- A benchmark, known by its name in the source; `name` is the one that it is registered under.
pub record Registration : Type 0 where
  pub name : Bytes
  pub code : Bytes
  pub threads : Option ℕ
  pub real_time : Bool

abbrev pub plain : Bytes → Bytes → Registration
plain name code = record { name = name; code = code; threads = none; real_time = false }

abbrev pub timed : Bytes → Bytes → Registration
timed name code = record { name = name; code = code; threads = none; real_time = true }

abbrev pub n_threads : ℕ
n_threads = 4

abbrev pub threaded : Bytes → Bytes → Registration
threaded name code = record { name = name; code = code; threads = some n_threads; real_time = true }

abbrev pub always_registered : List Registration
always_registered =
    plain (codes "spdlite_disabled") (codes "spdlite_disabled")
    ∷ plain (codes "spdlog_disabled") (codes "spdlog_disabled")
    ∷ plain (codes "spdlite_null_fmt_st") (codes "spdlite_null_fmt_st")
    ∷ plain (codes "spdlog_null_fmt_st") (codes "spdlog_null_fmt_st")
    ∷ plain (codes "spdlite_null_cstr_st") (codes "spdlite_null_cstr_st")
    ∷ plain (codes "spdlog_null_cstr_st") (codes "spdlog_null_cstr_st")
    ∷ timed (codes "spdlite_file_st") (codes "spdlite_file_st")
    ∷ timed (codes "spdlog_file_st") (codes "spdlog_file_st")
    ∷ timed (codes "spdlite_file_mt_1t") (codes "spdlite_file_mt")
    ∷ timed (codes "spdlog_file_mt_1t") (codes "spdlog_file_mt")
    ∷ threaded (codes "spdlite_file_mt") (codes "spdlite_file_mt")
    ∷ threaded (codes "spdlog_file_mt") (codes "spdlog_file_mt")
    ∷ timed (codes "spdlite_rotating_file_st") (codes "spdlite_rotating_file_st")
    ∷ timed (codes "spdlog_rotating_file_st") (codes "spdlog_rotating_file_st")
    ∷ threaded (codes "spdlite_rotating_file_mt") (codes "spdlite_rotating_file_mt")
    ∷ threaded (codes "spdlog_rotating_file_mt") (codes "spdlog_rotating_file_mt")
    ∷ []

abbrev pub registered_in_full : List Registration
registered_in_full =
    timed (codes "spdlite_color_st") (codes "spdlite_color_st")
    ∷ timed (codes "spdlog_color_st") (codes "spdlog_color_st")
    ∷ threaded (codes "spdlite_color_mt") (codes "spdlite_color_mt")
    ∷ threaded (codes "spdlog_color_mt") (codes "spdlog_color_mt")
    ∷ []

-- The reports of a run of the benchmarks, as the collector gets them.
unfoldable pub collected : (D : Double) → List (List (Run D)) → List (Run D) → List (Run D)
collected D [] all_runs = all_runs
collected D (report ∷ reports) all_runs = collected D reports (report_runs D report all_runs)

-- What is printed on `stderr`, and the exit code. `run` is the benchmark library: the reports of the
-- benchmarks that were registered; `reopened` is whether `stdout` could be sent to the null device,
-- and `errno_text` what `std::perror` prints of the failure.
unfoldable pub main :
    (D : Double)
    → (List Registration → List (List (Run D)))
    → Bytes
    → Bytes
    → List Bytes
    → Bool
    → List Bytes × ℕ
main D run spdlog_version errno_text argv reopened =
    let registered =
      if full_bench argv then always_registered ++ registered_in_full else always_registered in
    if reopened
    then (print_comparison D spdlog_version (collected D (run registered) []), 0)
    else ((codes "freopen failed: " ++ errno_text ++ codes "\n") ∷ [], 1)
