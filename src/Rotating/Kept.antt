-- ===== src/Rotating/Kept.antt =====
-- The files that a rotating sink leaves (include/spdlite/sinks/rotating_file_sink.h), and what the
-- scan of the next one makes of them.
use spdlite.Base.{
  ℕ, ◌+◌, ◌-◌, ◌<◌, ◌≤◌, ◌≡◌, ◌≢◌, ◌⊎◌, inl, inr, refl, sym, ap, ◌∙◌, arith, [], Bytes, Bool, true,
  false, Option, none, some, ltb, ◌==◌, take, IsRange, if◌then◌else◌,
}
use spdlite.Disk.{FilePath, Node, regular, Entries, lookup, listing, directory}
use spdlite.Base.Exec.{ok}
use spdlite.Rotating.{archive_path_, highest_index, scan_and_prune_archives_}
use spdlite.Rotating.Scanning.{scan_and_prune_archives_-calm}
use spdlite.Rotating.Names.{max_idx, parse_archive_index_, stem, extension}
use spdlite.Rotating.Names.RoundTrip.{parse-archive_name}
use spdlite.Rotating.Prune.{pruned, spared, still_absent, gone, parse-active}
use spdlite.Rotating.Steps.{calm}
use spdlite.Rotating.Log.{RollingLog, archived, archived-take, archived_cases}
use spdlite.Rotating.Foreign.{IsForeign}
use spdlite.Rotating.Above.{AllBelow, pruned-AllBelow, above_highest}

-- The file that holds the active part: an empty one need not be there.
abbrev pub IsActive : Option Node → Bytes → Type 0
IsActive node s = (node ≡ some (regular s)) ⊎ ((node ≡ none) × (s ≡ []))

module _ (base : FilePath) (es : Entries) where
  abbrev pub highest : ℕ
  highest = highest_index base (listing base.parent_path es) 0

  -- The directory holds the files of `log`, the newest archive under the highest index.
  pub record Kept (log : RollingLog) : Type 0 where
    pub active : IsActive (lookup base es) log.active
    pub fits : IsRange log.active
    pub window :
        (n : ℕ)
        → (0 < n) × (n < max_idx)
        → lookup (archive_path_ base n) es ≡ archived log.archives (highest + 1) n

  module _ (max_files : ℕ) where
    -- The entries behind the scan.
    abbrev pub scanned : Entries
    scanned =
        if highest == 0
        then es
        else if ltb max_files highest
        then pruned base (highest - max_files + 1) (listing base.parent_path es) es
        else es

    pub scanned-AllBelow : AllBelow base (highest + 1) scanned
    scanned-AllBelow = by_tests (highest == 0) (ltb max_files highest)
      where
        lowest : ℕ
        lowest = highest - max_files + 1

        start : AllBelow base (highest + 1) es
        start = above_highest base es 0 (highest + 1) (omega arith)

        by_tests :
            (a b : Bool)
            → AllBelow base (highest + 1) (
                if a
                then es
                else if b
                then pruned base lowest (listing base.parent_path es) es
                else es)
        by_tests true b = start
        by_tests false true =
            pruned-AllBelow base (highest + 1) lowest (listing base.parent_path es) es start
        by_tests false false = start

    pub scan-scanned :
        scan_and_prune_archives_ base max_files (calm es) ≡ (ok highest, calm scanned)
    scan-scanned = scan_and_prune_archives_-calm base max_files es

    -- What the scan does not touch: files whose names are no archive's.
    spared_scanned :
        (q : FilePath)
        → parse_archive_index_ q.filename (stem base.filename) (extension base.filename) ≡ none
        → lookup q scanned ≡ lookup q es
    spared_scanned q foreign = by_tests (highest == 0) (ltb max_files highest)
      where
        by_tests :
            (a b : Bool)
            → lookup q (
                if a
                then es
                else if b
                then pruned base (highest - max_files + 1) (listing base.parent_path es) es
                else es)
              ≡ lookup q es
        by_tests true b = refl
        by_tests false true =
            spared base (highest - max_files + 1) q (listing base.parent_path es) es
              (λ m e. absurd (cc (e, foreign)))
        by_tests false false = refl

    pub scanned_foreign : (q : FilePath) → IsForeign base q → lookup q scanned ≡ lookup q es
    scanned_foreign q foreign = spared_scanned q foreign.1

    pub scanned_active : lookup base scanned ≡ lookup base es
    scanned_active = spared_scanned base (parse-active base.filename)

    module _ (named : base.filename ≢ []) (log : RollingLog) (kept : Kept log) where
      abbrev lowest : ℕ
      lowest = highest - max_files + 1

      abbrev behind : Entries
      behind = pruned base lowest (listing base.parent_path es) es

      module _ (n : ℕ) (hn : (0 < n) × (n < max_idx)) where
        parsed :
            parse_archive_index_
              (archive_path_ base n).filename
              (stem base.filename)
              (extension base.filename)
            ≡ some n
        unfolding archive_path_
        parsed = parse-archive_name base.filename n named hn.0 hn.1

        in_dir : directory (archive_path_ base n).parent_path ≡ directory base.parent_path
        unfolding archive_path_
        in_dir = refl

        -- Below the limit nothing is left.
        removed : n < lowest → lookup (archive_path_ base n) behind ≡ none
        removed low = elim (archived_cases log.archives (highest + 1) n) [
          | inl empty ↦
              still_absent base lowest (archive_path_ base n) (listing base.parent_path es) es
                (kept.window n hn ∙ empty)
          | inr (s, full) ↦
              gone base lowest (archive_path_ base n) base.parent_path n s es es parsed low in_dir
                (kept.window n hn ∙ full)
        ]

        stays : lowest ≤ n → lookup (archive_path_ base n) behind ≡ lookup (archive_path_ base n) es
        stays high =
            spared base lowest (archive_path_ base n) (listing base.parent_path es) es
              (λ m e. omega (arith, high, injective m (sym parsed ∙ e)))
          where
            injective : (m : ℕ) → some n ≡ some m → n ≡ m
            injective m e = ground (arith, e)

        pub scanned_window :
            lookup (archive_path_ base n) scanned
            ≡ archived (take max_files log.archives) (highest + 1) n
        scanned_window =
            by_tests (highest == 0) (ltb max_files highest) (ltb n lowest) refl refl refl
          where
            taken :
                (b c : Bool)
                → ltb max_files highest ≡ b
                → ltb n lowest ≡ c
                → archived (take max_files log.archives) (highest + 1) n ≡ (
                    if b
                    then if c then none else archived log.archives (highest + 1) n
                    else archived log.archives (highest + 1) n)
            taken b c eb ec =
                archived-take log.archives max_files highest n hn.0
                ∙ ap
                    (λ t.
                      if t
                      then if ltb n lowest then none else archived log.archives (highest + 1) n
                      else archived log.archives (highest + 1) n)
                    eb
                ∙ ap
                    (λ t.
                      if b
                      then if t then none else archived log.archives (highest + 1) n
                      else archived log.archives (highest + 1) n)
                    ec

            by_tests :
                (a b c : Bool)
                → (highest == 0) ≡ a
                → ltb max_files highest ≡ b
                → ltb n lowest ≡ c
                → lookup (archive_path_ base n) (if a then es else if b then behind else es)
                  ≡ archived (take max_files log.archives) (highest + 1) n
            by_tests true true c ea eb ec = absurd (none_above (ground (arith, ea)) eb)
              where
                none_above : highest ≡ 0 → ltb max_files highest ≡ true → ⊥
                none_above e f = ground (arith, e, f)
            by_tests true false c ea eb ec = kept.window n hn ∙ sym (taken false c eb ec)
            by_tests false false c ea eb ec = kept.window n hn ∙ sym (taken false c eb ec)
            by_tests false true true ea eb ec =
                removed (ground (arith, ec)) ∙ sym (taken true true eb ec)
            by_tests false true false ea eb ec =
                stays (ground (arith, ec)) ∙ kept.window n hn ∙ sym (taken true false eb ec)
