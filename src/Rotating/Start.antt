-- ===== src/Rotating/Start.antt =====
-- The constructor of a rotating sink (include/spdlite/sinks/rotating_file_sink.h).
use spdlite.Base.{
  ℕ, ◌+◌, ◌%◌, ◌≤◌, ◌<◌, ◌≡◌, ◌≢◌, refl, ap, ◌∙◌, arith, [], ◌∷◌, Bytes, Bool, true, false, ◌&&◌,
  some, ltb, ◌==◌, if◌then◌else◌, if_false,
}
use spdlite.Base.Exec.{Result, Done, ok, fail}
use spdlite.Disk.{
  FilePath, regular, Entries, Disk, eq_bytes, lookup, listing, succeeds, fopen, open_error,
  directory_error,
}
use spdlite.Rotating.{
  RotatingFileSink, S, size_mod, archive_path_, highest_index, open_, resume, start_, initial,
  rotating_file_sink, max_files_limit,
}
use spdlite.Rotating.Names.{max_idx}
use spdlite.Rotating.Names.RoundTrip.{parse-archive_name}
use spdlite.Rotating.Scan.{seen, highest_index-lt}
use spdlite.Rotating.Scanning.{scan_and_prune_archives_-calm}
use spdlite.Rotating.Steps.{calm}

next_index-open_ :
    (r : RotatingFileSink) (d : Disk) → (open_ false (r, d)).1.0.next_index ≡ r.next_index
unfolding open_
next_index-open_ r d = by_stream (fopen d r.base_filename false).0
  where
    by_stream :
        (t : Bool)
        → (let out : Result Done × S =
              if t
              then (ok tt, (record r { file = true }, (fopen d r.base_filename false).1))
              else (fail (open_error r.base_filename), (r, (fopen d r.base_filename false).1)) in
            out.1.0.next_index ≡ r.next_index)
    by_stream true = refl
    by_stream false = refl

next_index-start_ :
    (r : RotatingFileSink) (es : Entries)
    → (start_ (r, calm es)).1.0.next_index
      ≡ highest_index r.base_filename (listing r.base_filename.parent_path es) 0 + 1
unfolding start_ resume
next_index-start_ r es =
    let highest = highest_index r.base_filename (listing r.base_filename.parent_path es) 0 in
    let small =
      highest_index-lt r.base_filename (listing r.base_filename.parent_path es) 0 (omega arith) in
    let wrapped : (highest + 1) % size_mod ≡ highest + 1 = omega (arith, small) in
    ap (λ o. (resume r o).1.0.next_index)
      (scan_and_prune_archives_-calm r.base_filename r.max_files es)
    ∙ next_index-open_ _ _
    ∙ wrapped

not_empty : (s : Bytes) → s ≢ [] → (t : Bool) → (t && eq_bytes s []) ≡ false
not_empty [] h t = absurd (h refl)
not_empty (c ∷ s) h t = ground arith

module _ (base : FilePath) (max_size max_files : ℕ) (es : Entries) (named : base.filename ≢ [])
    (positive : 0 < max_size) (few : max_files ≤ max_files_limit) where
  -- The checks pass, and the directory is there or is made.
  pub rotating_file_sink-start_ :
      rotating_file_sink base max_size max_files (calm es)
      ≡ start_ (initial base max_size max_files, calm es)
  unfolding rotating_file_sink succeeds
  rotating_file_sink-start_ =
      let b : (max_size == 0) ≡ false = ground arith in
      let c : ltb max_files_limit max_files ≡ false = ground arith in
      if_false _ (not_empty base.filename named (eq_bytes base.parent_path []))
      ∙ if_false _ b
      ∙ if_false _ c
      ∙ by_parent (eq_bytes base.parent_path [])
    where
      by_parent :
          (t : Bool)
          → (let made : Bool × Disk = if t then (true, calm es) else (true, calm es) in
              let out : Result Done × S =
                if made.0
                then start_ (initial base max_size max_files, made.1)
                else (fail directory_error, (initial base max_size max_files, made.1)) in
              out ≡ start_ (initial base max_size max_files, calm es))
      by_parent true = refl
      by_parent false = refl

  next_index-rotating_file_sink :
      (rotating_file_sink base max_size max_files (calm es)).1.0.next_index
      ≡ highest_index base (listing base.parent_path es) 0 + 1
  next_index-rotating_file_sink =
      ap (λ out. out.1.0.next_index) rotating_file_sink-start_
      ∙ next_index-start_ (initial base max_size max_files) es

  -- When no call of the file system fails, a rotating sink that is made on any directory starts
  -- above every archive in it: the archive's index is below the next index. The file's name is not
  -- empty, the size limit is positive, and at most 1000 archives are kept; the archive's index is
  -- positive and below SIZE_MAX.
  pub rotating_file_sink-above :
      (n : ℕ) (s : Bytes)
      → 0 < n
      → n < max_idx
      → lookup (archive_path_ base n) es ≡ some (regular s)
      → n < (rotating_file_sink base max_size max_files (calm es)).1.0.next_index
  unfolding archive_path_
  rotating_file_sink-above n s p lt at = rw next_index-rotating_file_sink (
      omega (
        arith,
        seen base (archive_path_ base n) s n (parse-archive_name base.filename n named p lt)
            base.parent_path es 0 refl at,
      ))
