-- ===== src/Example/Rotating.antt =====
-- The files of the rotating sink in the example program (example/example.cpp).
use spdlite.Base.{
  ℕ, ◌+◌, ◌<◌, ◌≤◌, ◌≡◌, ◌≢◌, refl, sym, ap, ◌∙◌, arith, List, [], ◌∷◌, Bytes, codes, length, take,
}
use spdlite.Base.Exec.{ok}
use spdlite.Level.{info}
use spdlite.Buffer.{MemoryBuf, IsLawful}
use spdlite.Disk.{FilePath, Entries, lookup}
use spdlite.Rotating.{RotatingFileSink}
use spdlite.Rotating.Names.{max_idx}
use spdlite.Rotating.Foreign.{IsForeign}
use spdlite.Rotating.Log.{RollingLog}
use spdlite.Rotating.Kept.{highest, Kept}
use spdlite.Rotating.Restart.{rotating_file_sink-Resumed}
use spdlite.Rotating.Leftover.{left-Kept}
use spdlite.Logger.{logger}
use spdlite.Logger.Setters.{logger-IsValid}
use spdlite.Programs.{Arg, number, Host, World, env}
use spdlite.Programs.Said.{Proper, Ready}
use spdlite.Programs.Files.{over}
use spdlite.Programs.Leaves.{new_settings}
use spdlite.Programs.Stdout.{Formats}
use spdlite.Programs.Rolling.{line_list, roll_lines, rotatings, for_range-Rolled}
use spdlite.Example
use spdlite.Example.{in_logs, max_size, max_files}

-- The format string of the loop and its argument.
abbrev pub rotating_text : Bytes
rotating_text = codes "rotating message #{:03}"

abbrev pub round : ℕ → List Arg
round i = number i ∷ []

abbrev pub rot_txt : FilePath
rot_txt = in_logs (codes "rot.txt")

pub named : rot_txt.filename ≢ []
named e = absurd (omega (arith, ap length e))

module _ (B : MemoryBuf) (L : IsLawful B) (host : Host) (proper : Proper host) where
  new-Ready :
      (s : RotatingFileSink)
      → Ready B L host
          (rotatings B L host)
          (new_settings [])
          (s, tt)
          (logger B (rotatings B L host) [] (s, tt))
  unfolding logger
  new-Ready s =
      let (valid, same) = logger-IsValid B L (rotatings B L host) (env host) [] (s, tt) in
      record { valid = valid; same = same; has = refl }

  -- Over the files of a log, the example of a rotating sink ends normally and leaves the rolling
  -- log of its 2000 lines behind the newest three archives of that log, with at most 2000 new
  -- indices; no file that is neither the active one nor named like an archive has changed, nor has
  -- the rest of the world but the readings of the clock. No call of the file system fails, and the
  -- indices stay below SIZE_MAX; the messages format without an exception, as texts shorter than
  -- 2^61 bytes; the clock and the calendar are as documented.
  pub rotating_file_sink_example-Kept :
      (w : World) (es : Entries) (log : RollingLog)
      → Kept rot_txt es log
      → highest rot_txt es + 1 + 2000 < max_idx
      → ((k : ℕ) → Formats host rotating_text (round k))
      → let out = Example.rotating_file_sink_example B host (over w es) in
        (out.0 ≡ ok tt)
        × (out.1 ≡ over (record w { readings = w.readings + 2000 }) out.1.disk.entries)
        × Kept rot_txt out.1.disk.entries (
            roll_lines max_size max_files
              (line_list host (new_settings []) info rotating_text round 2000 0 w.readings)
              (record log { archives = take max_files log.archives }))
        × (highest rot_txt out.1.disk.entries ≤ highest rot_txt es + 2000)
        × ((q : FilePath) → IsForeign rot_txt q → lookup q out.1.disk.entries ≡ lookup q es)
  unfolding Example.rotating_file_sink_example
  rotating_file_sink_example-Kept w es log kept room formats =
      let made =
        rotating_file_sink-Resumed rot_txt es max_size max_files log named (omega arith)
          (omega arith) (omega arith) kept in
      let start : RollingLog = record log { archives = take max_files log.archives } in
      let lines = line_list host (new_settings []) info rotating_text round 2000 0 w.readings in
      let run =
        for_range-Rolled B L host (new_settings []) info proper (λ e. ground (arith, e))
          (omega arith) refl rotating_text round 2000 0 made.sink start w made.entries
          (logger B (rotatings B L host) [] (made.sink, tt)) (λ k. (formats k).0)
          (λ k. (formats k).1) made.holds (omega (arith, made.index)) (new-Ready made.sink) in
      let limits = made.same_limits in
      let same_log =
        ap (λ k. roll_lines k made.sink.max_files lines start) limits.0
        ∙ ap (λ k. roll_lines max_size k lines start) limits.1 in
      let (left, index) =
        left-Kept run.sink run.entries (highest rot_txt es) 2000 (run.same_base ∙ made.same_base)
          same_log run.holds (omega (arith, made.index, run.index)) room in
      let entries_are = ap (λ z. z.disk.entries) run.world in
      rw made.returns (
        run.returns,
        run.world
            ∙ ap (λ z. over (record w { readings = w.readings + 2000 }) z.disk.entries)
                (sym run.world),
        rw entries_are left,
        rw entries_are index,
        λ q foreign.
            ap (lookup q) entries_are
            ∙ run.others q (rw made.same_base foreign)
            ∙ made.others q foreign,
      )
