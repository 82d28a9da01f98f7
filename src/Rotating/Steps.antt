-- ===== src/Rotating/Steps.antt =====
-- What the sink's calls do to the disk when none of them fails.
use spdlite.Base.{
  ℕ, ◌+◌, ◌-◌, ◌%◌, ◌^◌, ◌<◌, ◌≡◌, refl, ap, ◌∙◌, arith, [], ◌++◌, Bytes, Bool, true, false, ◌&&◌,
  not, none, some, ltb, length, if◌then◌else◌, if_true, if_false,
}
use spdlite.Base.Exec.{ok}
use spdlite.Disk.{
  FilePath, Node, regular, Entries, Disk, lookup, erase, put, remove, rename, fopen, fwrite_bytes,
  append_bytes,
}
use spdlite.Disk.Laws.{lookup-put, same_file_refl}
use spdlite.Rotating.{
  RotatingFileSink, size_mod, max_attempts, archive_path_, open_, try_rename_, drop_oldest_,
  rotate_, put_line, write_bytes,
}

-- A disk on which no call fails.
abbrev pub calm : Entries → Disk
calm es = record { entries = es; faults = [] }

module _ (r : RotatingFileSink) (es : Entries) where
  pub put_line-calm :
      (line old : Bytes) (size : ℕ)
      → lookup r.base_filename es ≡ some (regular old)
      → put_line line size (r, calm es) ≡ (
        ok tt,
        (record r { current_size = size }, calm (put r.base_filename (regular (old ++ line)) es)),
      )
  unfolding put_line fwrite_bytes append_bytes
  put_line-calm line old size h = rw (h, append_bytes)

  -- There is room, or nothing was written yet.
  pub write-appends :
      (line old : Bytes)
      → r.file ≡ true
      → lookup r.base_filename es ≡ some (regular old)
      → (ltb r.max_size ((r.current_size + length line) % size_mod) && ltb 0 r.current_size) ≡ false
      → write_bytes line (r, calm es) ≡ (
        ok tt,
        (
          record r { current_size = (r.current_size + length line) % size_mod },
          calm (put r.base_filename (regular (old ++ line)) es),
        ),
      )
  unfolding write_bytes
  write-appends line old is_open h room =
      if_false _ (ap not is_open) ∙ if_false _ room ∙ put_line-calm line old _ h

  try_rename-calm :
      (dst : FilePath) (n : Node)
      → lookup r.base_filename (erase dst es) ≡ some n
      → try_rename_ max_attempts r.base_filename dst (calm es)
        ≡ (true, calm (put dst n (erase r.base_filename (erase dst es))))
  unfolding try_rename_ remove rename
  try_rename-calm dst n h = rw (h, rename)

-- The entries after a rotation: the active file is now the archive `n`, the archive that left the
-- window is gone, and the active file is there again, empty.
abbrev pub renamed : FilePath → ℕ → Node → Entries → Entries
renamed base n node es =
    let archive = archive_path_ base n in put archive node (erase base (erase archive es))

abbrev pub dropped : FilePath → ℕ → ℕ → Entries → Entries
dropped base max_files next es =
    if ltb (max_files + 1) next then erase (archive_path_ base (next - max_files - 1)) es else es

if_calm : (b : Bool) (x y : Entries) → (if b then calm x else calm y) ≡ calm (if b then x else y)
if_calm true x y = refl
if_calm false x y = refl

module _ (r : RotatingFileSink) (es : Entries) where
  drop_oldest-calm :
      r.max_files < 2 ^ 63
      → r.next_index + 1 < size_mod
      → drop_oldest_ (r, calm es) ≡ (
        record r { next_index = r.next_index + 1 },
        calm (dropped r.base_filename r.max_files (r.next_index + 1) es),
      )
  unfolding drop_oldest_ remove
  drop_oldest-calm few fits =
      let a : (r.next_index + 1) % size_mod ≡ r.next_index + 1 = omega arith in
      let b : (r.max_files + 1) % size_mod ≡ r.max_files + 1 = omega arith in
      rw (a, b)
        (ap (λ x. (record r { next_index = r.next_index + 1 }, x))
          (if_calm (ltb (r.max_files + 1) (r.next_index + 1)) _ _))

  open_-calm :
      lookup r.base_filename es ≡ none
      → open_ false (r, calm es)
        ≡ (ok tt, (record r { file = true }, calm (put r.base_filename (regular []) es)))
  unfolding open_ fopen
  open_-calm h = rw (h, fopen)

-- What is on the disk behind a rotation.
abbrev pub rotated : RotatingFileSink → Bytes → Entries → Entries
rotated r old es =
    let archived = renamed r.base_filename r.next_index (regular old) es in
    dropped r.base_filename r.max_files (r.next_index + 1) archived

module _ (r : RotatingFileSink) (es : Entries) (old : Bytes) where
  pub rotate-calm :
      r.max_files < 2 ^ 63
      → r.next_index + 1 < size_mod
      → lookup r.base_filename (erase (archive_path_ r.base_filename r.next_index) es)
        ≡ some (regular old)
      → lookup r.base_filename (rotated r old es) ≡ none
      → rotate_ (r, calm es) ≡ (
        ok tt,
        (
          record r { next_index = r.next_index + 1; current_size = 0; file = true },
          calm (put r.base_filename (regular []) (rotated r old es)),
        ),
      )
  unfolding rotate_
  rotate-calm few fits found free = rw (
    try_rename-calm r es _ (regular old) found,
    drop_oldest-calm (record r { file = false })
        (renamed r.base_filename r.next_index (regular old) es) few fits,
    open_-calm (record r { file = false; next_index = r.next_index + 1 }) (rotated r old es) free,
  )

  pub write-rotates :
      (line : Bytes)
      → r.file ≡ true
      → (ltb r.max_size ((r.current_size + length line) % size_mod) && ltb 0 r.current_size) ≡ true
      → r.max_files < 2 ^ 63
      → r.next_index + 1 < size_mod
      → lookup r.base_filename (erase (archive_path_ r.base_filename r.next_index) es)
        ≡ some (regular old)
      → lookup r.base_filename (rotated r old es) ≡ none
      → write_bytes line (r, calm es) ≡ (
        ok tt,
        (
          record r { next_index = r.next_index + 1; current_size = length line; file = true },
          calm (
              put r.base_filename
                (regular line)
                (put r.base_filename (regular []) (rotated r old es))),
        ),
      )
  unfolding write_bytes
  write-rotates line is_open full few fits found free =
      let fresh = put r.base_filename (regular []) (rotated r old es) in
      let put_active =
        lookup-put r.base_filename r.base_filename (regular []) (rotated r old es)
        ∙ if_true _ (same_file_refl r.base_filename) in
      if_false _ (ap not is_open)
      ∙ if_true _ full
      ∙ rw (rotate-calm few fits found free) (
          put_line-calm (record r { next_index = r.next_index + 1; current_size = 0; file = true })
            fresh line [] (length line) put_active)
