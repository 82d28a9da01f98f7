-- ===== src/Rotating/Errors.antt =====
-- What the constructor of a rotating sink may end with (include/spdlite/sinks/rotating_file_sink.h),
-- on any disk.
use spdlite.Base.{
  ℕ, ◌≡◌, [], Bytes, Bool, true, false, Option, none, some, ltb, ◌==◌, if◌then◌else◌,
}
use spdlite.Base.Exec.{Result, ok, fail, Done}
use spdlite.Disk
use spdlite.Disk.{
  FilePath, Node, regular, symlink, other, Disk, is_empty_path, open_error, directory_error,
  iteration_error,
}
use spdlite.Rotating.{RotatingFileSink, S, initial, max_files_limit, invalid_argument}
use spdlite.Rotating.Untouched.{active}

-- The arguments are ones that the constructor takes.
abbrev pub valid_arguments : FilePath → ℕ → ℕ → Bool
valid_arguments base max_size max_files =
    if is_empty_path base
    then false
    else if max_size == 0
    then false
    else if ltb max_files_limit max_files
    then false
    else true

-- The bytes of the active file before: an absent one counts as empty, and what is no regular file
-- has none.
abbrev pub Held : Option Node → Bytes → Type 0
Held none s = s ≡ []
Held (some (regular old)) s = s ≡ old
Held (some symlink) s = ⊥
Held (some other) s = ⊥

-- The end of a constructor: an argument is refused, with the disk as it was; the directory cannot be
-- made, or its entries not be read to the end, or the file not be opened, and the active file is as
-- it was; or the sink is there, its stream is open, and the active file has the bytes it had.
pub data Ends (base : FilePath) (d : Disk) (valid : Bool) (out : Result Done × S) : Type 0 where
  refused :
      (what : Bytes)
      → valid ≡ false
      → out.0 ≡ fail (invalid_argument what)
      → out.1.1 ≡ d
      → Ends base d valid out
  no_directory :
      valid ≡ true
      → out.0 ≡ fail directory_error
      → active base out.1.1 ≡ active base d
      → Ends base d valid out
  not_read :
      valid ≡ true
      → out.0 ≡ fail iteration_error
      → active base out.1.1 ≡ active base d
      → Ends base d valid out
  not_opened :
      valid ≡ true
      → out.0 ≡ fail (open_error base)
      → active base out.1.1 ≡ active base d
      → Ends base d valid out
  opened :
      (s : Bytes)
      → valid ≡ true
      → out.0 ≡ ok tt
      → out.1.0.file ≡ true
      → Held (active base d) s
      → active base out.1.1 ≡ some (regular s)
      → Ends base d valid out

module _ (base : FilePath) (max_size max_files : ℕ) (d : Disk) where
  abbrev r : RotatingFileSink
  r = initial base max_size max_files
