-- ===== src/Tests/Example.antt =====
-- The example program, sessions of rotating sinks, retries and the header's patches at concrete
-- inputs.
use spdlite.Base.{ℕ, ◌+◌, ◌≡◌, ◌≤◌, refl, arith, [], ◌∷◌, codes, some, none, ltb, List, Option, inr}
use spdlite.Base.Int.{pos}
use spdlite.Base.Exec.{ok}
use spdlite.Level.{info}
use spdlite.Formatter.{
  default_options, formatter, refresh, patch_fraction, patch_thread_id, patch_level,
}
use spdlite.Formatter.Bounds.{made}
use spdlite.Formatter.Within.{followed, stages-followed}
use spdlite.Disk.{FilePath, regular, Entries, lookup, listing}
use spdlite.Rotating.{archive_path_, highest_index, try_rename_}
use spdlite.Rotating.Foreign.{IsForeign}
use spdlite.Rotating.Log.{RollingLog, archived}
use spdlite.Rotating.Kept.{highest, Kept}
use spdlite.Rotating.Steps.{calm}
use spdlite.Rotating.Window.{not_active}
use spdlite.Rotating.Retries.{failed_rounds, Retried, try_rename_-Retried}
use spdlite.Rotating.Runs.{AllInRange}
use spdlite.Rotating.Sessions.{Session, sessions, roll_sessions, sessions-Kept}
use spdlite.Programs.Files.{over}
use spdlite.Programs.Leaves.{new_settings}
use spdlite.Programs.Rolling.{line_list, roll_lines}
use spdlite.Example.{rotating_file_sink_example, main, max_size, max_files}
use spdlite.Example.Rotating.{rot_txt, rotating_text, round, rotating_file_sink_example-Kept}
use spdlite.Example.Outcome.{Finished}
use spdlite.Example.Main.{main-Finished}
use spdlite.Tests.Samples.{libc, buf, lawful}
use spdlite.Tests.Rotation.{base, named, line}
use spdlite.Tests.Restart.{left, log_left, left-Kept, highest-left}
use spdlite.Tests.Programs.{host, host-Proper, world}

-- Two sinks, one after the other, with different limits.
abbrev runs : List Session
runs =
    record { max_size = 8; max_files = 2; msgs = line ∷ line ∷ [] }
    ∷ record { max_size = 4; max_files = 1; msgs = line ∷ [] }
    ∷ []

sessions-Kept_example :
    let out = sessions base runs (calm left) in
    (out.0 ≡ ok tt)
    × Kept base out.1.entries (roll_sessions runs log_left)
    × ((q : FilePath) → IsForeign base q → lookup q out.1.entries ≡ lookup q left)
unfolding AllInRange
sessions-Kept_example =
    sessions-Kept base runs left log_left named
      (
        omega arith,
        omega arith,
        omega arith,
        (omega arith, (omega arith, tt)),
        (omega arith, omega arith, omega arith, (omega arith, tt), tt),
      )
      left-Kept (omega (arith, highest-left))

-- A file that is renamed after two rounds that fail.
abbrev before : Entries
before = (base, regular (codes "full")) ∷ []

abbrev rounds : List (Option ℕ × ℕ)
rounds = (none, 3) ∷ (some 0, 1) ∷ []

try_rename_-Retried_example :
    Retried base (archive_path_ base 1) (regular (codes "full")) before (ltb 2 5) (
      try_rename_ 5 base
        (archive_path_ base 1)
        (record { entries = before; faults = failed_rounds rounds }))
unfolding lookup
try_rename_-Retried_example =
    try_rename_-Retried base (archive_path_ base 1) (regular (codes "full"))
      (not_active base named 1).1 5 rounds before refl

stages-followed_example :
    let f = formatter (codes "app") default_options in
    let f1 = refresh libc f (pos 5) in
    let f2 = patch_fraction f1 (pos 12345678) in
    let f3 = patch_thread_id f2 4711 in
    (refresh libc (followed f (codes "next")) (pos 5) ≡ followed f1 (codes "next"))
    × (patch_fraction (followed f1 (codes "next")) (pos 12345678) ≡ followed f2 (codes "next"))
    × (patch_thread_id (followed f2 (codes "next")) 4711 ≡ followed f3 (codes "next"))
    × (patch_level (followed f3 (codes "next")) (codes "WRN")
        ≡ followed (patch_level f3 (codes "WRN")) (codes "next"))
stages-followed_example =
    stages-followed buf (formatter (codes "app") default_options) libc (pos 5) (pos 12345678) 4711
      (codes "WRN") (codes "next") (made (codes "app") default_options)

abbrev empty_log : RollingLog
empty_log = record { active = []; archives = [] }

none_found : highest rot_txt [] ≡ 0
unfolding highest_index listing
none_found = refl

empty-Kept : Kept rot_txt [] empty_log
unfolding lookup
empty-Kept = record {
  active = inr (refl, refl);
  fits = omega arith;
  window = λ n hn. no_archive n (highest rot_txt [] + 1);
}
  where
    no_archive : (n k : ℕ) → none ≡ archived [] k n
    no_archive n k = ground arith

rotating_file_sink_example-Kept_example :
    let out = rotating_file_sink_example buf host (over world []) in
    (out.0 ≡ ok tt)
    × (out.1 ≡ over (record world { readings = 2000 }) out.1.disk.entries)
    × Kept rot_txt out.1.disk.entries (
        roll_lines max_size max_files
          (line_list host (new_settings []) info rotating_text round 2000 0 0)
          empty_log)
    × (highest rot_txt out.1.disk.entries ≤ highest rot_txt [] + 2000)
    × ((q : FilePath) → IsForeign rot_txt q → lookup q out.1.disk.entries ≡ lookup q [])
rotating_file_sink_example-Kept_example =
    rotating_file_sink_example-Kept buf lawful host host-Proper world [] empty_log empty-Kept
      (omega (arith, none_found)) (λ k. (refl, omega arith))

main-Finished_example : Finished host 0 empty_log world [] (main buf host 0 (over world []))
unfolding lookup
main-Finished_example =
    main-Finished host buf lawful host-Proper
      (record { banner_format = (refl, omega arith); level_format = λ lvl. (refl, omega arith) })
      (λ k. (refl, omega arith)) 0 world [] empty_log (refl, refl, refl) empty-Kept
      (omega (arith, none_found))
