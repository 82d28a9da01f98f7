-- ===== src/Disk.antt =====
-- The part of the standard library's file system that the sinks use: paths, a disk as a list of
-- entries, and the calls on it. A call that can fail takes the next element of `faults`: `none`
-- lets it go on, `some k` makes it fail (`fwrite` after k bytes), and an empty list lets all go on.
pub mod Laws
use spdlite.Base.{
  ℕ, zero, suc, List, [], ◌∷◌, ◌++◌, Bytes, codes, Bool, true, false, ◌&&◌, not, Option, none, some,
  ◌==◌, take, length, if◌then◌else◌,
}
use spdlite.Base.Exec.{Failure, Exec, Done, Result, ok, fail, std_exception}

abbrev pub eq_bytes : Bytes → Bytes → Bool
eq_bytes [] [] = true
eq_bytes (c ∷ s) (d ∷ t) = c == d && eq_bytes s t
eq_bytes _ _ = false

-- A path as its `parent_path()` and its `filename()`; `dir / name` puts the two together.
pub record FilePath : Type 0 where
  pub parent_path : Bytes
  pub filename : Bytes

-- `string()`: the separator stands between the two unless the directory ends with one.
abbrev pub below : Bytes → Bytes → Bytes
below [] name = b'/' ∷ name
below (c ∷ []) name = if c == b'/' then c ∷ name else c ∷ b'/' ∷ name
below (c ∷ d ∷ s) name = c ∷ below (d ∷ s) name

abbrev pub string : FilePath → Bytes
string p = elim p.parent_path [ [] ↦ p.filename | (c ∷ s) ↦ below (c ∷ s) p.filename ]

-- The directory that a parent path names: the empty one is the current directory.
abbrev pub directory : Bytes → Bytes
directory [] = codes "."
directory (c ∷ s) = c ∷ s

abbrev pub same_file : FilePath → FilePath → Bool
same_file p q =
    eq_bytes (directory p.parent_path) (directory q.parent_path) && eq_bytes p.filename q.filename

abbrev pub is_empty_path : FilePath → Bool
is_empty_path p = eq_bytes p.parent_path [] && eq_bytes p.filename []

-- What an entry of a directory is. A link or a directory cannot be opened as a log file here.
pub data Node : Type 0 where
  regular : Bytes → Node
  symlink other : Node

-- What the sinks throw when a file cannot be opened, or its directory not be made.
abbrev pub open_error : FilePath → Failure
open_error p = std_exception (codes "spdlite: failed to open file: " ++ string p)

abbrev pub directory_error : Failure
directory_error = std_exception (codes "create_directories")

-- What the `++` of a `directory_iterator` throws.
abbrev pub iteration_error : Failure
iteration_error = std_exception (codes "directory iterator cannot advance")

abbrev pub Entries : Type 0
Entries = List (FilePath × Node)

pub record Disk : Type 0 where
  pub entries : Entries
  pub faults : List (Option ℕ)

unfoldable pub lookup : FilePath → Entries → Option Node
lookup p [] = none
lookup p ((q, n) ∷ es) = if same_file q p then some n else lookup p es

unfoldable pub erase : FilePath → Entries → Entries
erase p [] = []
erase p ((q, n) ∷ es) = if same_file q p then erase p es else (q, n) ∷ erase p es

-- A new entry stands where the old one stood, or at the end.
unfoldable pub put : FilePath → Node → Entries → Entries
unfolding erase
put p n [] = (p, n) ∷ []
put p n ((q, m) ∷ es) = if same_file q p then (p, n) ∷ erase p es else (q, m) ∷ put p n es

-- The fault of the next call, and the faults behind it.
abbrev pub next_fault : List (Option ℕ) → Option ℕ
next_fault [] = none
next_fault (x ∷ xs) = x

abbrev pub later_faults : List (Option ℕ) → List (Option ℕ)
later_faults [] = []
later_faults (x ∷ xs) = xs

abbrev pub is_some {ℓ} : {A : Type ℓ} → Option A → Bool
is_some none = false
is_some (some a) = true

-- Each call returns what it returns in the source, and the disk after it.
module _ (d : Disk) where
  abbrev pub faulty : Bool
  faulty = is_some (next_fault d.faults)

  abbrev pub stepped : Entries → Disk
  stepped es = record { entries = es; faults = later_faults d.faults }

  -- `remove(p, ec)`: whether `ec` is set. Removing what is not there is no error.
  unfoldable pub remove : FilePath → Bool × Disk
  remove p = if faulty then (true, stepped d.entries) else (false, stepped (erase p d.entries))

  -- `rename(src, dst, ec)`: whether `ec` is clear. What `dst` named is replaced.
  unfoldable pub rename : FilePath → FilePath → Bool × Disk
  rename src dst = if faulty then (false, stepped d.entries) else elim (lookup src d.entries) [
    | none ↦ (false, stepped d.entries)
    | some n ↦ (true, stepped (put dst n (erase src d.entries)))
  ]

  -- The file that `fopen` gives, by what the path names: `"wb"` empties it, `"ab"` keeps it.
  abbrev pub opened : Bool → Option Node → Option Node
  opened truncate none = some (regular [])
  opened truncate (some (regular s)) = some (regular (if truncate then [] else s))
  opened truncate (some _) = none

  -- `fopen(p, truncate ? "wb" : "ab")`: whether the stream is not null.
  unfoldable pub fopen : FilePath → Bool → Bool × Disk
  fopen p truncate =
      if faulty then (false, stepped d.entries) else elim (opened truncate (lookup p d.entries)) [
        | none ↦ (false, stepped d.entries)
        | some n ↦ (true, stepped (put p n d.entries))
      ]

  -- Bytes put at the end of a file that is open; the stream's own buffer is not seen.
  unfoldable pub append_bytes : FilePath → Bytes → Entries
  append_bytes p s = elim (lookup p d.entries) [
    | some (regular old) ↦ put p (regular (old ++ s)) d.entries
    | _ ↦ d.entries
  ]

  -- `detail::fwrite_bytes`: whether all bytes went out.
  unfoldable pub fwrite_bytes : FilePath → Bytes → Bool × Disk
  fwrite_bytes p s = elim (next_fault d.faults) [
    | none ↦ (true, stepped (append_bytes p s))
    | some k ↦ (false, stepped (append_bytes p (take k s)))
  ]

  -- `file_size(p, ec)`: none if `ec` is set.
  unfoldable pub file_size : FilePath → Option ℕ × Disk
  file_size p = if faulty then (none, stepped d.entries) else elim (lookup p d.entries) [
    | some (regular s) ↦ (some (length s), stepped d.entries)
    | _ ↦ (none, stepped d.entries)
  ]

  -- `create_directories`, `exists`, and the start and the `++` of a `directory_iterator`: whether
  -- they succeed.
  -- Directories have no entries of their own here, so they change nothing.
  unfoldable pub succeeds : Bool × Disk
  succeeds = (not faulty, stepped d.entries)

-- The entries of a directory, in the order of the disk.
unfoldable pub listing : Bytes → Entries → Entries
listing dir [] = []
listing dir ((p, n) ∷ es) =
    if eq_bytes (directory p.parent_path) (directory dir)
    then (p, n) ∷ listing dir es
    else listing dir es
