-- ===== src/Bench/Comparison.antt =====
-- `print_comparison` of bench/vs_spdlog.cpp: the runs of the benchmarks, collated by what they test.
pub mod Rows
pub mod Latest
use spdlite.Base.{
  ℕ, ◌+◌, List, [], ◌∷◌, ◌++◌, Bytes, codes, Bool, true, false, ◌&&◌, Option, none, some, length,
  take, drop, set, get_elem?, if◌then◌else◌,
}
use spdlite.Disk.{eq_bytes}

-- `double`, with what the code does with it: nanoseconds from a time and a number of iterations,
-- the test `> 0`, the quotient, and the text of a row, `"%-20s %10.1f ns %10.1f ns %7.2fx\n"`.
pub record Double : Type 1 where
  pub Value : Type 0
  pub zero : Value
  pub nanoseconds : Value → ℕ → Value
  pub is_positive : Value → Bool
  pub ratio : Value → Value → Value
  pub print_row : Bytes → Value → Value → Value → Bytes

module _ (D : Double) where
  -- The fields of the benchmark library's `Run` that are read.
  pub record Run : Type 0 where
    pub function_name : Bytes
    pub real_accumulated_time : D.Value
    pub iterations : ℕ

  -- `result_collector::ReportRuns`
  unfoldable pub report_runs : List Run → List Run → List Run
  report_runs report all_runs = all_runs ++ report

  pub record Row : Type 0 where
    pub test : Bytes
    pub spdlite_ns : D.Value
    pub spdlog_ns : D.Value

  -- `table` and `index`
  pub record Table : Type 0 where
    pub rows : List Row
    pub index : List (Bytes × ℕ)

  abbrev pub no_rows : Table
  no_rows = record { rows = []; index = [] }

  -- `is_lite` and the key of a run, if its name has one of the two prefixes.
  unfoldable pub side_of : Bytes → Option (Bool × Bytes)
  side_of name =
      if eq_bytes (take 8 name) (codes "spdlite_")
      then some (true, drop 8 name)
      else if eq_bytes (take 7 name) (codes "spdlog_")
      then some (false, drop 7 name)
      else none

  -- `index.find(key)`
  unfoldable pub find : Bytes → List (Bytes × ℕ) → Option ℕ
  find key [] = none
  find key ((k, i) ∷ index) = if eq_bytes k key then some i else find key index

  abbrev pub new_row : Bytes → Row
  new_row key = record { test = key; spdlite_ns = D.zero; spdlog_ns = D.zero }

  -- The place of a key, in a table that has it.
  unfoldable pub place : Bytes → Table → ℕ × Table
  place key t = elim (find key t.index) [
    | some i ↦ (i, t)
    | none ↦ (
      length t.rows,
      record { rows = t.rows ++ new_row key ∷ []; index = (key, length t.rows) ∷ t.index },
    )
  ]

  abbrev pub set_ns : Bool → D.Value → Row → Row
  set_ns true ns row = record row { spdlite_ns = ns }
  set_ns false ns row = record row { spdlog_ns = ns }

  -- `table[i] = ...`; out of range this is undefined, and the model then changes nothing.
  unfoldable pub store : ℕ → (Row → Row) → List Row → List Row
  store i f rows = elim (get_elem? rows i) [ none ↦ rows | some row ↦ set rows i (f row) ]

  -- One round of the loop.
  unfoldable pub add_run : Run → Table → Table
  add_run r t = elim (side_of r.function_name) [
    | none ↦ t
    | some (is_lite, key) ↦
        let (i, t') = place key t in
        let ns = D.nanoseconds r.real_accumulated_time r.iterations in
        record t' { rows = store i (set_ns is_lite ns) t'.rows }
  ]

  unfoldable pub collate : List Run → Table → Table
  collate [] t = t
  collate (r ∷ runs) t = collate runs (add_run r t)

  -- The rows that have both times, with their quotient.
  unfoldable pub print_rows : List Row → List Bytes
  print_rows [] = []
  print_rows (row ∷ rows) =
      let rest = print_rows rows in
      if D.is_positive row.spdlite_ns && D.is_positive row.spdlog_ns
      then D.print_row row.test row.spdlog_ns row.spdlite_ns (D.ratio row.spdlog_ns row.spdlite_ns)
        ∷ rest
      else rest

  -- The lines above the table; `spdlog_version` is spdlog's own, `%d.%d.%d` of its macros.
  abbrev pub heading : Bytes → List Bytes
  heading spdlog_version =
      (codes "\nspdlite version: 0.1.0\n")
      ∷ (codes "spdlog version:  " ++ spdlog_version ++ codes "\n")
      ∷ codes "====================== spdlite vs spdlog ======================\n"
      ∷ codes "Test                        spdlog       spdlite   speedup\n"
      ∷ codes "----------------------------------------------------------------\n"
      ∷ []

  -- What goes to `stderr`, line by line.
  unfoldable pub print_comparison : Bytes → List Run → List Bytes
  print_comparison spdlog_version runs =
      heading spdlog_version
      ++ (print_rows (collate runs no_rows).rows
          ++ codes "================================================================\n" ∷ [])
