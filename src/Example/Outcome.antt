-- ===== src/Example/Outcome.antt =====
-- What the whole example program is to print and to leave (example/example.cpp).
use spdlite.Base.{ℕ, ◌+◌, ◌≡◌, [], ◌++◌, Bytes, false, some, leb, take}
use spdlite.Base.Exec.{ok, Done, Result}
use spdlite.Level.{info}
use spdlite.Disk.{FilePath, regular, Entries, lookup, same_file}
use spdlite.FileSink.{truncate}
use spdlite.FileSink.Text.{kept}
use spdlite.Logger.Levels.{level_info}
use spdlite.Rotating.Foreign.{IsForeign}
use spdlite.Rotating.Log.{RollingLog}
use spdlite.Rotating.Kept.{Kept}
use spdlite.Programs.{Host, World}
use spdlite.Programs.Leaves.{new_settings}
use spdlite.Programs.Rolling.{line_list, roll_lines}
use spdlite.Example.{max_size, max_files}
use spdlite.Example.Consoles.{banner_lines, level_lines}
use spdlite.Example.Gating.{gated_lines}
use spdlite.Example.Writes.{
  example_txt, multi_txt, shared_txt, example_line, multi_line, multi_console, network_line,
  auth_line,
}
use spdlite.Example.Rotating.{rot_txt, rotating_text, round}

-- The number of readings of the clock before each part.
abbrev pub after_banner : ℕ → ℕ
after_banner r = r + 1

abbrev pub after_levels : ℕ → ℕ
after_levels r = after_banner r + 6

abbrev pub after_file : ℕ → ℕ
after_file r = after_levels r + 1

abbrev pub after_rotating : ℕ → ℕ
after_rotating r = after_file r + 2000

abbrev pub after_multi : ℕ → ℕ
after_multi r = after_rotating r + 1

abbrev pub after_shared : ℕ → ℕ
after_shared r = after_multi r + 2

-- The files that the program opens empty are absent or regular.
abbrev pub AreLogs : Entries → Type 0
AreLogs es =
    (kept truncate (lookup example_txt es) ≡ some [])
    × (kept truncate (lookup multi_txt es) ≡ some [])
    × (kept truncate (lookup shared_txt es) ≡ some [])

module _ (host : Host) where
  -- What the program prints when `active` is the active level and the clock was read `r` times.
  abbrev pub main_text : ℕ → ℕ → Bytes
  main_text active r =
      banner_lines host r
      ++ level_lines host (after_banner r)
      ++ multi_console host (after_rotating r)
      ++ gated_lines host (leb active level_info) (after_shared r)

  -- The rolling log of the program's 2000 lines, behind what was there.
  abbrev pub main_log : RollingLog → ℕ → RollingLog
  main_log log r =
      roll_lines max_size max_files
        (line_list host (new_settings []) info rotating_text round 2000 0 (after_file r))
        (record log { archives = take max_files log.archives })

  -- What is left of the world by the program.
  pub record Finished (active : ℕ) (log : RollingLog) (w : World) (es : Entries)
      (out : Result Done × World) : Type 0 where
    pub returns : out.0 ≡ ok tt
    pub stdout_text : out.1.streams.out ≡ w.streams.out ++ main_text active w.readings
    pub stderr_text : out.1.streams.err ≡ w.streams.err
    pub example_file :
        lookup example_txt out.1.disk.entries
        ≡ some (regular (example_line host (after_levels w.readings)))
    pub rotating_files : Kept rot_txt out.1.disk.entries (main_log log w.readings)
    pub multi_file :
        lookup multi_txt out.1.disk.entries
        ≡ some (regular (multi_line host (after_rotating w.readings)))
    pub shared_file :
        lookup shared_txt out.1.disk.entries
        ≡ some (
            regular (
              network_line host (after_multi w.readings)
              ++ auth_line host (after_multi w.readings + 1)))
    pub others :
        (q : FilePath)
        → IsForeign rot_txt q
        → same_file example_txt q ≡ false
        → same_file multi_txt q ≡ false
        → same_file shared_txt q ≡ false
        → lookup q out.1.disk.entries ≡ lookup q es
