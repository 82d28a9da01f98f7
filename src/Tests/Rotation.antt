-- ===== src/Tests/Rotation.antt =====
-- The rotating sink at concrete inputs.
use spdlite.Base.{
  if_true, ℕ, ap, ◌∙◌, if_false, none, [], ◌∷◌, codes, arith, ◌≡◌, refl, true, some, length, ◌<◌,
  ◌==◌,
}
use spdlite.Base.Int.{pos}
use spdlite.Level.{info}
use spdlite.Message.{LogMsg}
use spdlite.Disk.{FilePath, regular, Entries, Disk, lookup, same_file}
use spdlite.Rotating.{rotating_file_sink, RotatingFileSink, write, archive_path_}
use spdlite.Rotating.Names.{parse_archive_index_, stem, extension}
use spdlite.Rotating.Names.RoundTrip.{archive_name, parse-archive_name}
use spdlite.Rotating.Window.{not_active, same_archive}
use spdlite.Rotating.Faults.{Harmless}
use spdlite.Rotating.Steps.{calm}
use spdlite.Rotating.Log.{RollingLog, archived}
use spdlite.Rotating.Above.{AllBelow, active-OneBelow}
use spdlite.Rotating.Refine.{Holds}
use spdlite.Rotating.Runs.{write_each, roll_each, AllInRange, Ran, write_each-Ran}
use spdlite.Rotating.Turns.{Bounded}
use spdlite.Rotating.Start.{rotating_file_sink-above}
use spdlite.Disk.Laws.{same_file_refl}
use spdlite.Rotating.Bounded.{write-Bounded}

abbrev pub base : FilePath
base = record { parent_path = codes "logs"; filename = codes "app.txt" }

-- A sink on a new file.
abbrev sink : RotatingFileSink
sink = record {
  base_filename = base;
  max_size = 8;
  max_files = 2;
  current_size = 0;
  next_index = 1;
  file = true;
}

abbrev entries : Entries
entries = (base, regular []) ∷ []

abbrev empty : RollingLog
empty = record { active = []; archives = [] }

pub named : base.filename ≡ [] → ⊥
named e = absurd (omega (arith, ap length e))

no_archive : (n : ℕ) → 0 < n → none ≡ archived [] 1 n
no_archive n h = ground arith

sink-Holds : Holds sink entries empty
unfolding lookup AllBelow
sink-Holds = record {
  named = named;
  is_open = refl;
  size = refl;
  limit = omega arith;
  few = omega arith;
  fits = omega arith;
  kept = omega arith;
  first = omega arith;
  above = (active-OneBelow base 1 [], tt);
  active = refl;
  window = λ n hn. if_false _ (not_active base named n).1 ∙ no_archive n hn.0;
}

abbrev pub line : LogMsg
line = record {
  time = pos 0;
  logger_name = [];
  log_level = info;
  formatted = codes "[INF] hi";
  payload = codes "hi";
  level_offset = 1;
}

write_each-Ran_example :
    Ran sink entries 4
      (roll_each 8 2 (line ∷ line ∷ line ∷ line ∷ []) empty)
      (write_each (line ∷ line ∷ line ∷ line ∷ []) (sink, calm entries))
unfolding AllInRange
write_each-Ran_example =
    write_each-Ran (line ∷ line ∷ line ∷ line ∷ []) sink entries empty sink-Holds
      (omega arith, (omega arith, (omega arith, (omega arith, tt)))) (omega arith)

-- A full file on a disk where the next two calls fail: the sink starts a rotation.
abbrev full : RotatingFileSink
full = record sink { current_size = 8 }

abbrev pub flaky : Disk
flaky = record { entries = (base, regular (codes "[INF] hi")) ∷ []; faults = some 0 ∷ some 0 ∷ [] }

full-Bounded : Bounded 8 (full, flaky)
unfolding Harmless lookup
full-Bounded = record {
  named = named;
  max = omega arith;
  range = omega arith;
  file = some (regular (codes "[INF] hi"));
  shows = ((refl, (refl, tt)), refl);
  small = omega arith;
  tracked = refl;
}

write-Bounded_example : Bounded 8 (write line (full, flaky)).1
write-Bounded_example = write-Bounded 8 line full flaky full-Bounded (omega arith)

parse-archive_name_example :
    parse_archive_index_
      (archive_name (codes "app.txt") 12)
      (stem (codes "app.txt"))
      (extension (codes "app.txt"))
    ≡ some 12
parse-archive_name_example =
    parse-archive_name (codes "app.txt") 12 (λ e. absurd (omega (arith, ap length e))) (omega arith)
      (omega arith)

same_archive_example : same_file (archive_path_ base 2) (archive_path_ base 12) ≡ (2 == 12)
same_archive_example =
    same_archive base named 2 12 (omega arith, omega arith) (omega arith, omega arith)

abbrev seventh : Entries
seventh = (archive_path_ base 7, regular (codes "old")) ∷ (base, regular []) ∷ []

rotating_file_sink-above_example : 7 < (rotating_file_sink base 8 2 (calm seventh)).1.0.next_index
unfolding lookup
rotating_file_sink-above_example =
    rotating_file_sink-above base 8 2 seventh named (omega arith) (omega arith) 7 (codes "old")
      (omega arith) (omega arith) (if_true _ (same_file_refl (archive_path_ base 7)))
