-- ===== src/Rotating/Sessions.antt =====
-- Sessions of rotating sinks over the same files (include/spdlite/sinks/rotating_file_sink.h): a
-- sink is made, writes and is gone, and another one follows.
use spdlite.Base.{
  ℕ, ◌+◌, ◌<◌, ◌≤◌, ◌≡◌, ◌≢◌, ◌^◌, refl, ap, ◌∙◌, arith, List, [], ◌∷◌, length, take,
}
use spdlite.Base.Exec.{Result, ok, Done, continue}
use spdlite.Message.{LogMsg}
use spdlite.Disk.{FilePath, Entries, Disk, lookup}
use spdlite.Rotating.{RotatingFileSink, S, rotating_file_sink, max_files_limit}
use spdlite.Rotating.Names.{max_idx}
use spdlite.Rotating.Steps.{calm}
use spdlite.Rotating.Foreign.{IsForeign}
use spdlite.Rotating.Log.{RollingLog}
use spdlite.Rotating.Kept.{highest, Kept}
use spdlite.Rotating.Restart.{rotating_file_sink-Resumed}
use spdlite.Rotating.Runs.{write_each, write_each-Ran, roll_each, AllInRange}
use spdlite.Rotating.Leftover.{left-Kept}

-- A sink that ended normally, and files that hold `log`, with at most `n` new indices.
pub record Left (base : FilePath) (n : ℕ) (es : Entries) (log : RollingLog) (out : Result Done × S)
    : Type 0 where
  pub sink : RotatingFileSink
  pub entries : Entries
  pub returns : out ≡ (ok tt, (sink, calm entries))
  pub kept : Kept base entries log
  pub index : highest base entries ≤ highest base es + n
  pub others : (q : FilePath) → IsForeign base q → lookup q entries ≡ lookup q es

-- The sink is made, and writes.
abbrev pub session : FilePath → ℕ → ℕ → List LogMsg → Disk → Result Done × S
session base max_size max_files msgs d =
    continue (rotating_file_sink base max_size max_files d).0 (λ _. write_each msgs)
      (rotating_file_sink base max_size max_files d).1

-- One session leaves files that the next sink can resume.
pub session-Left :
    (base : FilePath) (es : Entries) (max_size max_files : ℕ) (log : RollingLog)
    (msgs : List LogMsg)
    → base.filename ≢ []
    → 0 < max_size
    → max_size < 2 ^ 63
    → max_files ≤ max_files_limit
    → Kept base es log
    → AllInRange msgs
    → highest base es + 1 + length msgs < max_idx
    → Left base
        (length msgs)
        es
        (roll_each max_size max_files msgs (record log { archives = take max_files log.archives }))
        (session base max_size max_files msgs (calm es))
session-Left base es max_size max_files log msgs named positive limit few kept ranges room =
    let made =
      rotating_file_sink-Resumed base es max_size max_files log named positive limit few kept in
    let start = record log { archives = take max_files log.archives } in
    let ran =
      write_each-Ran msgs made.sink made.entries start made.holds ranges
        (omega (arith, made.index, room)) in
    let limits = made.same_limits in
    let same_log =
      ap (λ k. roll_each k made.sink.max_files msgs start) limits.0
      ∙ ap (λ k. roll_each max_size k msgs start) limits.1 in
    let (kept', index) =
      left-Kept ran.sink ran.entries (highest base es) (length msgs)
        (ran.same_base ∙ made.same_base) same_log ran.holds (omega (arith, made.index, ran.index))
        room in
    record {
      sink = ran.sink;
      entries = ran.entries;
      returns = rw made.returns ran.returns;
      kept = kept';
      index = index;
      others = λ q foreign. ran.others q (rw made.same_base foreign) ∙ made.others q foreign;
    }

-- What one session is started with, and what it writes.
pub record Session : Type 0 where
  pub max_size : ℕ
  pub max_files : ℕ
  pub msgs : List LogMsg

-- One sink after the other.
unfoldable pub sessions : FilePath → List Session → Disk → Result Done × Disk
sessions base [] d = (ok tt, d)
sessions base (a ∷ rest) d =
    let (r, (s, d')) = session base a.max_size a.max_files a.msgs d in
    continue r (λ _. sessions base rest) d'

-- What the sessions make of the log: each keeps the newest archives up to its own limit.
unfoldable pub roll_sessions : List Session → RollingLog → RollingLog
roll_sessions [] log = log
roll_sessions (a ∷ rest) log = roll_sessions rest (
    roll_each a.max_size a.max_files a.msgs
      (record log { archives = take a.max_files log.archives }))

abbrev pub AreValid : List Session → Type 0
AreValid [] = Unit
AreValid (a ∷ rest) =
    (0 < a.max_size)
    × (a.max_size < 2 ^ 63)
    × (a.max_files ≤ max_files_limit)
    × AllInRange a.msgs
    × AreValid rest

-- How many lines the sessions write.
abbrev pub n_lines : List Session → ℕ
n_lines [] = 0
n_lines (a ∷ rest) = length a.msgs + n_lines rest

-- Any number of rotating sinks, made one after the other over the same files, each with its own
-- limits and lines: when no call of the file system fails, all end normally, the directory then
-- holds the rolling log of all their lines, where each sink keeps the newest archives up to its own
-- limit, and no file that is neither the active one nor named like an archive has changed. The
-- file's name is not empty; each size limit is positive and below 2^63, each sink keeps at most
-- 1000 archives, and each line is shorter than 2^63 bytes; the directory holds the log before the
-- first sink, and the indices stay below SIZE_MAX.
pub sessions-Kept :
    (base : FilePath) (runs : List Session) (es : Entries) (log : RollingLog)
    → base.filename ≢ []
    → AreValid runs
    → Kept base es log
    → highest base es + 1 + n_lines runs < max_idx
    → let out = sessions base runs (calm es) in
      (out.0 ≡ ok tt)
      × Kept base out.1.entries (roll_sessions runs log)
      × ((q : FilePath) → IsForeign base q → lookup q out.1.entries ≡ lookup q es)
unfolding sessions roll_sessions
sessions-Kept base [] es log named valid kept room = (refl, kept, λ q foreign. refl)
sessions-Kept base (a ∷ rest) es log named (positive, limit, few, ranges, valid) kept room =
    let one =
      session-Left base es a.max_size a.max_files log a.msgs named positive limit few kept ranges
        (omega arith) in
    let (ends, left, same) =
      sessions-Kept base rest one.entries _ named valid one.kept (omega (arith, one.index)) in
    rw one.returns (ends, left, λ q foreign. same q foreign ∙ one.others q foreign)
