-- ===== src/Bench/Comparison/Latest.antt =====
-- What the table of the comparison holds (bench/vs_spdlog.cpp).
use spdlite.Base.{List, [], ◌∷◌, Bytes, Bool, true, false, ◌&&◌, Option, none, some, if◌then◌else◌}
use spdlite.Disk.{eq_bytes}
use spdlite.Bench.Comparison.{Double, Run, Row, side_of}

module _ (D : Double) where
  abbrev pub ns_of : Bool → Row D → D.Value
  ns_of true row = row.spdlite_ns
  ns_of false row = row.spdlog_ns

  -- What the table shows for a test and a side: zero if it has no row.
  unfoldable pub shown : Bytes → Bool → List (Row D) → D.Value
  shown key lite [] = D.zero
  shown key lite (row ∷ rows) =
      let rest = shown key lite rows in if eq_bytes row.test key then ns_of lite row else rest

  abbrev pub same_side : Bool → Bool → Bool
  same_side true b = b
  same_side false true = false
  same_side false false = true

  abbrev pub ns_run : Run D → D.Value
  ns_run r = D.nanoseconds r.real_accumulated_time r.iterations

  -- One run: the new time, if it is one of this test and side.
  abbrev pub newer : Bytes → Bool → Run D → Option (Bool × Bytes) → D.Value → D.Value
  newer key lite r none v = v
  newer key lite r (some (l, k)) v = if eq_bytes k key && same_side l lite then ns_run r else v

  -- The time of the last run of a test and a side, found by going through all runs.
  unfoldable pub latest : Bytes → Bool → List (Run D) → D.Value → D.Value
  latest key lite [] v = v
  latest key lite (r ∷ runs) v =
      latest key lite runs (newer key lite r (side_of D r.function_name) v)
