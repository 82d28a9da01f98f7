-- ===== src/Rotating/Restart.antt =====
-- A rotating sink made over the files of another one (include/spdlite/sinks/rotating_file_sink.h).
use spdlite.Base.{
  ℕ, ◌+◌, ◌%◌, ◌^◌, ◌<◌, ◌≤◌, ◌≡◌, ◌≢◌, inl, inr, refl, sym, ap, ◌∙◌, arith, [], true, false,
  Option, none, some, length, length-take, take, if_true, if_false,
}
use spdlite.Base.Exec.{Result, ok, Done}
use spdlite.Disk.{FilePath, regular, Entries, Disk, lookup, put, listing, file_size, fopen}
use spdlite.Disk.Laws.{lookup-put, same_file_refl}
use spdlite.Rotating.{
  RotatingFileSink, S, size_mod, archive_path_, scan_and_prune_archives_, open_, resume, start_,
  initial, rotating_file_sink, max_files_limit,
}
use spdlite.Rotating.Scan.{highest_index-lt}
use spdlite.Rotating.Start.{rotating_file_sink-start_}
use spdlite.Rotating.Window.{not_active}
use spdlite.Rotating.Steps.{calm}
use spdlite.Rotating.Log.{RollingLog}
use spdlite.Rotating.Above.{put-AllBelow, active-OneBelow}
use spdlite.Rotating.Foreign.{IsForeign, foreign-put}
use spdlite.Rotating.Refine.{Holds}
use spdlite.Rotating.Kept.{
  IsActive, highest, Kept, scanned, scanned-AllBelow, scan-scanned, scanned_active, scanned_window,
  scanned_foreign,
}

-- A sink that is made, and holds `log`.
pub record Resumed (base : FilePath) (es : Entries) (max_size max_files next : ℕ) (log : RollingLog)
    (out : Result Done × S) : Type 0 where
  pub sink : RotatingFileSink
  pub entries : Entries
  pub returns : out ≡ (ok tt, (sink, calm entries))
  pub holds : Holds sink entries log
  pub same_limits : (sink.max_size ≡ max_size) × (sink.max_files ≡ max_files)
  pub same_base : sink.base_filename ≡ base
  pub index : sink.next_index ≡ next
  pub others : (q : FilePath) → IsForeign base q → lookup q entries ≡ lookup q es

module _ (base : FilePath) (es : Entries) (max_size max_files : ℕ) (log : RollingLog)
    (named : base.filename ≢ []) (positive : 0 < max_size) (limit : max_size < 2 ^ 63)
    (few : max_files ≤ max_files_limit) (kept : Kept base es log) where
  abbrev found : Entries
  found = scanned base es max_files

  abbrev opened_entries : Entries
  opened_entries = put base (regular log.active) found

  abbrev made : RotatingFileSink
  made = record {
    base_filename = base;
    max_size = max_size;
    max_files = max_files;
    current_size = length log.active;
    next_index = highest base es + 1;
    file = true;
  }

  no_wrap : (highest base es + 1) % size_mod ≡ highest base es + 1
  no_wrap = omega (arith, highest_index-lt base (listing base.parent_path es) 0 (omega arith))

  -- Behind the scan: the size is read and the file is opened.
  abbrev sized : Option ℕ × Disk → ℕ → Result Done × S
  sized (sz, d) h = open_ false (
    record (initial base max_size max_files) {
      next_index = (h + 1) % size_mod;
      current_size = elim sz [ none ↦ 0 | some n ↦ n ];
    },
    d,
  )

  start_-behind_scan :
      start_ (initial base max_size max_files, calm es)
      ≡ resume (initial base max_size max_files) (scan_and_prune_archives_ base max_files (calm es))
  unfolding start_
  start_-behind_scan = refl

  resume-sized :
      (xs : Entries) (h : ℕ)
      → resume (initial base max_size max_files) (ok h, calm xs)
        ≡ sized (file_size (calm xs) base) h
  unfolding resume
  resume-sized xs h = refl

  file_size-calm :
      (xs : Entries)
      → IsActive (lookup base xs) log.active
      → (let sz = file_size (calm xs) base in
          (elim sz.0 [ none ↦ 0 | some n ↦ n ] ≡ length log.active) × (sz.1 ≡ calm xs))
  unfolding file_size
  file_size-calm xs (inl there) = rw (there, file_size) (refl, refl)
  file_size-calm xs (inr (missing, empty)) = rw (missing, file_size) (sym (ap length empty), refl)

  fopen-calm :
      (xs : Entries)
      → IsActive (lookup base xs) log.active
      → fopen (calm xs) base false ≡ (true, calm (put base (regular log.active) xs))
  unfolding fopen
  fopen-calm xs (inl there) = rw (there, fopen) refl
  fopen-calm xs (inr (missing, empty)) =
      rw (missing, fopen) (ap (λ s. (true, calm (put base (regular s) xs))) (sym empty))

  open_-calm :
      (xs : Entries) (r : RotatingFileSink)
      → r.base_filename ≡ base
      → IsActive (lookup base xs) log.active
      → open_ false (r, calm xs)
        ≡ (ok tt, (record r { file = true }, calm (put base (regular log.active) xs)))
  unfolding open_
  open_-calm xs r same at = rw (same, fopen-calm xs at) refl

  opens :
      IsActive (lookup base found) log.active
      → start_ (initial base max_size max_files, calm es) ≡ (ok tt, (made, calm opened_entries))
  opens at =
      let (size, disk) = file_size-calm found at in
      start_-behind_scan
      ∙ ap (resume (initial base max_size max_files)) (scan-scanned base es max_files)
      ∙ resume-sized found (highest base es)
      ∙ (λ i. open_ false (
        record (initial base max_size max_files) { next_index = no_wrap i; current_size = size i },
        disk i,
      ))
      ∙ open_-calm found (record made { file = false }) refl at

  active_behind : IsActive (lookup base found) log.active
  active_behind = rw (scanned_active base es max_files) kept.active

  -- A rotating sink that is made over the files of a log resumes it: when no call of the file
  -- system fails, the constructor ends normally, and sink and directory hold that log with the
  -- newest max_files archives, older ones pruned, the next index one above the highest in the
  -- directory. The file's name is not empty, the size limit is positive and below 2^63, and at most
  -- 1000 archives are kept; the directory holds the log, its newest archive under the highest
  -- index, an empty active file may be absent, and the active part is shorter than 2^63 bytes.
  pub rotating_file_sink-Resumed :
      Resumed base es max_size max_files
        (highest base es + 1)
        (record log { archives = take max_files log.archives })
        (rotating_file_sink base max_size max_files (calm es))
  rotating_file_sink-Resumed = record {
    sink = made;
    entries = opened_entries;
    returns =
        rotating_file_sink-start_ base max_size max_files es named positive few
        ∙ opens active_behind;
    holds = record {
      named = named;
      is_open = refl;
      size = refl;
      limit = limit;
      few = few;
      fits = kept.fits;
      kept = omega (arith, length-take max_files log.archives);
      first = omega arith;
      above =
          put-AllBelow base (highest base es + 1) base (regular log.active) found
            (active-OneBelow base (highest base es + 1) log.active)
            (scanned-AllBelow base es max_files);
      active = lookup-put base base (regular log.active) found ∙ if_true _ (same_file_refl base);
      window = λ n hn.
          lookup-put base (archive_path_ base n) (regular log.active) found
          ∙ if_false _ (not_active base named n).1
          ∙ scanned_window base es max_files named log kept n hn;
    };
    same_limits = (refl, refl);
    same_base = refl;
    index = refl;
    others = λ q foreign.
        foreign-put base named q foreign (regular log.active) found
        ∙ scanned_foreign base es max_files q foreign;
  }
