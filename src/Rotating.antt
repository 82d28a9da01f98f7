-- ===== src/Rotating.antt =====
-- `rotating_file_sink` (include/spdlite/sinks/rotating_file_sink.h).
pub mod Names
pub mod Steps
pub mod Log
pub mod Window
pub mod Refine
pub mod Runs
pub mod Faults
pub mod Turns
pub mod Bounded
pub mod Scan
pub mod Scanning
pub mod Start
pub mod Prune
pub mod Pruning
pub mod Above
pub mod Foreign
pub mod Retries
pub mod Kept
pub mod Restart
pub mod Leftover
pub mod Sessions
pub mod Untouched
pub mod Errors
use spdlite.Base.{
  ℕ, zero, suc, ◌+◌, ◌-◌, ◌*◌, ◌/◌, ◌%◌, ◌^◌, List, [], ◌∷◌, ◌++◌, Bytes, codes, Bool, true, false,
  ◌&&◌, ◌||◌, not, Option, none, some, ltb, leb, ◌==◌, length, if◌then◌else◌,
}
use spdlite.Base.Exec.{Exec, Done, Result, ok, fail, Failure, std_exception, pure, ◌>>=◌, ◌>>◌}
use spdlite.Message.{LogMsg}
use spdlite.Disk.{
  open_error, directory_error, iteration_error, FilePath, Node, regular, symlink, other, Entries,
  Disk, eq_bytes, is_empty_path, remove, rename, fopen, fwrite_bytes, file_size, succeeds, listing,
}
use spdlite.Rotating.Names.{stem, extension, to_string, parse_archive_index_}

abbrev pub max_files_limit : ℕ
max_files_limit = 1000

-- A stream is always open on `base_filename`, so `file` says only whether there is one.
pub record RotatingFileSink : Type 0 where
  pub base_filename : FilePath
  pub max_size : ℕ
  pub max_files : ℕ
  pub current_size : ℕ
  pub next_index : ℕ
  pub file : Bool

abbrev pub size_mod : ℕ
size_mod = 2 ^ 64

unfoldable pub archive_path_ : FilePath → ℕ → FilePath
archive_path_ base n = record {
  parent_path = base.parent_path;
  filename = stem base.filename ++ (b'.' ∷ (to_string n ++ extension base.filename));
}

abbrev pub S : Type 0
S = RotatingFileSink × Disk

unfoldable pub open_ : Bool → Exec S Done
open_ truncate (r, d) =
    let (opened, d') = fopen d r.base_filename truncate in
    if opened
    then (ok tt, (record r { file = true }, d'))
    else (fail (open_error r.base_filename), (r, d'))

-- `max_attempts` rounds; the sleep between them changes nothing here.
unfoldable pub try_rename_ : ℕ → FilePath → FilePath → Disk → Bool × Disk
try_rename_ zero src dst d = (false, d)
try_rename_ (suc attempts) src dst d =
    let (ec, d1) = remove d dst in
    let (renamed, d2) = rename d1 src dst in
    let again = try_rename_ attempts src dst d2 in if renamed then (true, d2) else again

abbrev pub max_attempts : ℕ
max_attempts = 5

abbrev pub set_current : ℕ → Exec S Done
set_current n (r, d) = (ok tt, (record r { current_size = n }, d))

-- `++next_index_` and the removal of the archive that left the window.
unfoldable pub drop_oldest_ : S → S
drop_oldest_ (r, d) =
    let next = (r.next_index + 1) % size_mod in
    let oldest = archive_path_ r.base_filename (next - r.max_files - 1) in
    (
      record r { next_index = next },
      if ltb ((r.max_files + 1) % size_mod) next then (remove d oldest).1 else d,
    )

unfoldable pub rotate_ : Exec S Done
rotate_ (r, d) =
    let closed = record r { file = false } in
    let archive = archive_path_ r.base_filename r.next_index in
    let (renamed, d') = try_rename_ max_attempts r.base_filename archive d in
    if renamed
    then (open_ false >> set_current 0) (drop_oldest_ (closed, d'))
    else (open_ true >> set_current 0) (closed, d')

-- The write itself, once there is room.
unfoldable pub put_line : Bytes → ℕ → Exec S Done
put_line line new_size (r, d) =
    let (written, d') = fwrite_bytes d r.base_filename line in
    if written then (ok tt, (record r { current_size = new_size }, d')) else (ok tt, (r, d'))

unfoldable pub write_bytes : Bytes → Exec S Done
write_bytes line (r, d) =
    let bytes = length line in
    let new_size = (r.current_size + bytes) % size_mod in
    if not r.file
    then (ok tt, (r, d))
    else if ltb r.max_size new_size && ltb 0 r.current_size
    then (rotate_ >> (λ s. if s.0.file then put_line line bytes s else (ok tt, s))) (r, d)
    else put_line line new_size (r, d)

unfoldable pub write : LogMsg → Exec S Done
write msg = write_bytes msg.formatted

-- `flush` pushes the stream's buffer, which is not modelled, to the file.
abbrev pub flush : Exec S Done
flush s = (ok tt, s)

-- The index of a directory entry that counts: a regular file with an archive's name.
unfoldable pub archive_index : FilePath → FilePath × Node → Option ℕ
archive_index base (p, regular s) =
    parse_archive_index_ p.filename (stem base.filename) (extension base.filename)
archive_index base (p, symlink) = none
archive_index base (p, other) = none

-- The first pass: the highest index.
unfoldable pub highest_index : FilePath → Entries → ℕ → ℕ
highest_index base [] highest = highest
highest_index base (e ∷ es) highest =
    highest_index base es (elim (archive_index base e) [
      | none ↦ highest
      | some n ↦ if ltb highest n then n else highest
    ])

-- The entries of the directory, or none if the iteration cannot start (`if (ec) break`).
abbrev pub entries_of : FilePath → Bool × Disk → Entries
entries_of base (listed, d) = if listed then listing base.parent_path d.entries else []

-- The `++` of a loop over the entries, once behind each: it has no error code, and throws.
unfoldable pub walk : Entries → Disk → Bool × Disk
walk [] d = (true, d)
walk (e ∷ es) d =
    let (moved, d') = succeeds d in let rest = walk es d' in if moved then rest else (false, d')

unfoldable pub first_pass : FilePath → Exec Disk ℕ
first_pass base d =
    let listed = succeeds d in
    let es = entries_of base listed in
    let (walked, d') = walk es listed.1 in
    (if walked then ok (highest_index base es 0) else fail iteration_error, d')

-- The body of the second loop: whether `ec` is set behind it.
unfoldable pub prune_entry : FilePath → ℕ → FilePath × Node → Disk → Bool × Disk
prune_entry base lowest_keep e d = elim (archive_index base e) [
  | none ↦ (false, d)
  | some n ↦ if ltb n lowest_keep then remove d e.0 else (false, d)
]

-- The second loop: whether it ends. `ec` is shared with `remove`, so a failed removal ends it too.
unfoldable pub prune : FilePath → ℕ → Entries → Bool → Disk → Bool × Disk
prune base lowest_keep [] ec d = (true, d)
prune base lowest_keep (e ∷ es) true d = (true, d)
prune base lowest_keep (e ∷ es) false d =
    let (ec, d1) = prune_entry base lowest_keep e d in
    let (moved, d2) = succeeds d1 in
    let rest = prune base lowest_keep es ec d2 in if moved then rest else (false, d2)

unfoldable pub second_pass : FilePath → ℕ → ℕ → Exec Disk ℕ
second_pass base max_files highest d =
    let listed = succeeds d in
    let (ended, d') =
      prune base (highest - max_files + 1) (entries_of base listed) false listed.1 in
    if ltb max_files highest
    then (if ended then ok highest else fail iteration_error, d')
    else (ok highest, d)

unfoldable pub scan_and_prune_archives_ : FilePath → ℕ → Exec Disk ℕ
scan_and_prune_archives_ base max_files d =
    let (found, d1) = succeeds d in
    if found
    then (first_pass base >>= λ highest.
          if highest == 0 then pure 0 else second_pass base max_files highest)
        d1
    else (ok 0, d1)

abbrev pub invalid_argument : Bytes → Failure
invalid_argument what = std_exception (codes "rotating_file_sink: " ++ what)

-- The members before the body of the constructor.
abbrev pub initial : FilePath → ℕ → ℕ → RotatingFileSink
initial base max_size max_files = record {
  base_filename = base;
  max_size = max_size;
  max_files = max_files;
  current_size = 0;
  next_index = 1;
  file = false;
}

-- The constructor behind its scan.
unfoldable pub resume : RotatingFileSink → Result ℕ × Disk → Result Done × S
resume r (fail e, d) = (fail e, (r, d))
resume r (ok highest, d) =
    let (sz, d') = file_size d r.base_filename in
    open_ false (
      record r {
        next_index = (highest + 1) % size_mod;
        current_size = elim sz [ none ↦ r.current_size | some n ↦ n ];
      },
      d',
    )

-- The constructor behind its checks.
unfoldable pub start_ : Exec S Done
start_ (r, d) = resume r (scan_and_prune_archives_ r.base_filename r.max_files d)

unfoldable pub rotating_file_sink : FilePath → ℕ → ℕ → Disk → Result Done × S
rotating_file_sink base max_size max_files d =
    let r = initial base max_size max_files in
    let made = if eq_bytes base.parent_path [] then (true, d) else succeeds d in
    if is_empty_path base
    then (fail (invalid_argument (codes "base_filename must not be empty")), (r, d))
    else if max_size == 0
    then (fail (invalid_argument (codes "max_size must be > 0")), (r, d))
    else if ltb max_files_limit max_files
    then (fail (invalid_argument (codes "max_files exceeds max_files_limit (1000)")), (r, d))
    else if made.0
    then start_ (r, made.1)
    else (fail (directory_error), (r, made.1))
