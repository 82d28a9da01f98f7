-- ===== src/Example/Main.antt =====
-- The whole example program (example/example.cpp): what it prints and what it leaves.
use spdlite.Base.{
  ℕ, ◌+◌, ◌<◌, ◌≤◌, ◌≡◌, refl, ap, ◌∙◌, arith, [], ◌++◌, append_assoc, Bytes, false, some, leb,
}
use spdlite.Base.Exec.{ok, Done, Result}
use spdlite.Buffer.{MemoryBuf, IsLawful}
use spdlite.Disk.{FilePath, regular, Entries, lookup, put, same_file}
use spdlite.FileSink.{truncate}
use spdlite.FileSink.Text.{kept}
use spdlite.Logger.Levels.{level_info}
use spdlite.Rotating.Names.{max_idx, parse_archive_index_, cut_name, last_period, scan_digits}
use spdlite.Rotating.Foreign.{IsForeign}
use spdlite.Rotating.Log.{RollingLog}
use spdlite.Rotating.Kept.{highest, Kept}
use spdlite.Rotating.Leftover.{foreign_put-Kept}
use spdlite.Programs.{Host, World, ticked}
use spdlite.Programs.Said.{Proper}
use spdlite.Programs.Files.{over, put_here, put_others}
use spdlite.Programs.Stdout.{printed, Formats}
use spdlite.Example
use spdlite.Example.{max_size, max_files}
use spdlite.Example.Consoles.{
  ConsoleFormats, banner_lines, level_lines, banner_lem, log_levels_lem, format_options_example_lem,
}
use spdlite.Example.Gating.{gated_lines, gated_reads, compile_time_gating_example_lem}
use spdlite.Example.Writes.{
  example_txt, multi_txt, shared_txt, written, written_others, example_line, multi_line,
  multi_console, network_line, auth_line, shared_world, file_sink_example_lem,
  multi_sink_example_lem, shared_file_sink_example_lem,
}
use spdlite.Example.Rotating.{rot_txt, rotating_text, round, rotating_file_sink_example-Kept, named}
use spdlite.Example.Outcome.{main_log, Finished, AreLogs}

-- The logs that the program opens empty are not archives of the rotating one.
example_foreign : IsForeign rot_txt example_txt
unfolding parse_archive_index_ cut_name last_period scan_digits
example_foreign = (refl, refl)

multi_foreign : IsForeign rot_txt multi_txt
unfolding parse_archive_index_ cut_name last_period scan_digits
multi_foreign = (refl, refl)

shared_foreign : IsForeign rot_txt shared_txt
unfolding parse_archive_index_ cut_name last_period scan_digits
shared_foreign = (refl, refl)

module _ (host : Host) where
  module _ (B : MemoryBuf) (L : IsLawful B) (proper : Proper host) (formats : ConsoleFormats host)
      (rounds : (k : ℕ) → Formats host rotating_text (round k)) (active : ℕ) (w : World)
      (es : Entries) (log : RollingLog) (logs : AreLogs es) (keeps : Kept rot_txt es log)
      (room : highest rot_txt es + 2002 < max_idx) where
    -- The worlds without their files.
    abbrev w1 : World
    w1 = printed (banner_lines host w.readings) 1 w

    abbrev w2 : World
    w2 = printed (level_lines host w1.readings) 6 w1

    abbrev es1 : Entries
    es1 = written example_txt (example_line host w2.readings) es

    abbrev w3 : World
    w3 = ticked host w2

    abbrev w4 : World
    w4 = record w3 { readings = w3.readings + 2000 }

    abbrev rotated_out : Result Done × World
    rotated_out = Example.rotating_file_sink_example B host (over w3 es1)

    abbrev es2 : Entries
    es2 = rotated_out.1.disk.entries

    abbrev es3 : Entries
    es3 = written multi_txt (multi_line host w4.readings) es2

    abbrev w5 : World
    w5 = printed (multi_console host w4.readings) 1 w4

    abbrev w6 : World
    w6 = shared_world w5

    abbrev es4 : Entries
    es4 =
        put shared_txt (regular (network_line host w5.readings ++ auth_line host (w5.readings + 1)))
          (written shared_txt (network_line host w5.readings) es3)

    highest_after :
        (p : FilePath) (s : Bytes) (k : ℕ) (l : RollingLog) (xs : Entries)
        → IsForeign rot_txt p
        → k + 1 < max_idx
        → highest rot_txt xs ≤ k
        → Kept rot_txt xs l
        → Kept rot_txt (written p s xs) l × (highest rot_txt (written p s xs) ≤ k)
    highest_after p s k l xs foreign small below h =
        let (h1, b1) =
          foreign_put-Kept rot_txt p (regular []) xs l named foreign (omega (arith, below, small))
            h in
        let (h2, b2) =
          foreign_put-Kept rot_txt p (regular s) (put p (regular []) xs) l named foreign
            (omega (arith, below, small, b1)) h1 in
        (h2, omega (arith, below, b1, b2))

    start : Kept rot_txt es1 log × (highest rot_txt es1 ≤ highest rot_txt es)
    start =
        highest_after example_txt (example_line host w2.readings) (highest rot_txt es) log es
          example_foreign (omega (arith, room)) (omega arith) keeps

    run :
        (rotated_out.0 ≡ ok tt)
        × (rotated_out.1 ≡ over w4 es2)
        × Kept rot_txt es2 (main_log host log w.readings)
        × (highest rot_txt es2 ≤ highest rot_txt es1 + 2000)
        × ((q : FilePath) → IsForeign rot_txt q → lookup q es2 ≡ lookup q es1)
    run =
        rotating_file_sink_example-Kept B L host proper w3 es1 log start.0
          (omega (arith, room, start.1)) rounds

    multi_before : kept truncate (lookup multi_txt es2) ≡ some []
    multi_before =
        ap (kept truncate) (
          run.4 multi_txt multi_foreign
          ∙ written_others example_txt multi_txt (example_line host w2.readings) es refl)
        ∙ logs.1

    shared_before : kept truncate (lookup shared_txt es3) ≡ some []
    shared_before =
        ap (kept truncate) (
          written_others multi_txt shared_txt (multi_line host w4.readings) es2 refl
          ∙ run.4 shared_txt shared_foreign
          ∙ written_others example_txt shared_txt (example_line host w2.readings) es refl)
        ∙ logs.2

    final : World
    final =
        printed (gated_lines host (leb active level_info) w6.readings)
          (gated_reads (leb active level_info)) (over w6 es4)

    rotated_ends : rotated_out ≡ (ok tt, over w4 es2)
    rotated_ends i = (run.0 i, run.1 i)

    main_lem : Example.main B host active (over w es) ≡ (ok tt, final)
    unfolding Example.main final
    main_lem =
        rw
          (
            banner_lem host B L proper formats (over w es),
            log_levels_lem host B L proper formats (over w1 es),
            format_options_example_lem host B L proper formats (over w2 es),
            file_sink_example_lem host B L proper w2 es logs.0,
            rotated_ends,
            multi_sink_example_lem host B L proper w4 es2 multi_before,
            shared_file_sink_example_lem host B L proper w5 es3 shared_before,
          )
          (compile_time_gating_example_lem host B L proper active (over w6 es4))

    -- A file that the last part does not write.
    spared_last : (q : FilePath) → same_file shared_txt q ≡ false → lookup q es4 ≡ lookup q es3
    spared_last q different =
        put_others shared_txt q _ (written shared_txt (network_line host w5.readings) es3) different
        ∙ written_others shared_txt q (network_line host w5.readings) es3 different

    rotating_kept : Kept rot_txt es4 (main_log host log w.readings)
    rotating_kept =
        let most = highest rot_txt es + 2000 in
        let (h3, b3) =
          highest_after multi_txt (multi_line host w4.readings) most _ es2 multi_foreign
            (omega (arith, room)) (omega (arith, run.3, start.1)) run.2 in
        let (h4, b4) =
          highest_after shared_txt (network_line host w5.readings) most _ es3 shared_foreign
            (omega (arith, room)) b3 h3 in
        (foreign_put-Kept rot_txt shared_txt _ _ _ named shared_foreign (omega (arith, room, b4))
          h4).0

    -- The whole example program ends normally. On stdout it has put exactly the banner, the six
    -- lines of the levels, the line that goes to both sinks, and the gated line if the active level
    -- lets it through, in this order, each with the colour around its tag on a terminal, and
    -- nothing on stderr. logs/example.txt, logs/multi.txt and logs/shared.txt hold exactly their
    -- lines, the rotating files hold the rolling log of the 2000 lines behind what was there, and
    -- no other file has changed. No call of the file system fails; the three logs are absent or
    -- regular before, the rotating files hold a log, and its indices stay below SIZE_MAX; the
    -- strings format without an exception, as texts shorter than 2^61 bytes; the clock and the
    -- calendar are as documented.
    pub main-Finished : Finished host active log w es (Example.main B host active (over w es))
    unfolding final
    main-Finished = rw main_lem (record {
      returns = refl;
      stdout_text = simp append_assoc;
      stderr_text = refl;
      example_file =
          spared_last example_txt refl
          ∙ written_others multi_txt example_txt (multi_line host w4.readings) es2 refl
          ∙ run.4 example_txt example_foreign
          ∙ put_here example_txt _ (put example_txt (regular []) es);
      rotating_files = rotating_kept;
      multi_file =
          spared_last multi_txt refl ∙ put_here multi_txt _ (put multi_txt (regular []) es2);
      shared_file = put_here shared_txt _ (written shared_txt (network_line host w5.readings) es3);
      others = λ q own e m s.
          spared_last q s
          ∙ written_others multi_txt q (multi_line host w4.readings) es2 m
          ∙ run.4 q own
          ∙ written_others example_txt q (example_line host w2.readings) es e;
    })
