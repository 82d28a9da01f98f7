-- ===== src/Rotating/Untouched.antt =====
-- The active file while a rotating sink is made (include/spdlite/sinks/rotating_file_sink.h),
-- whichever calls fail on the way.
use spdlite.Base.{
  ℕ, ◌+◌, ◌-◌, ◌≡◌, refl, ap, ◌∙◌, arith, [], ◌∷◌, Bool, true, false, not, Option, none, some, ltb,
  ◌==◌, if◌then◌else◌, if_false,
}
use spdlite.Base.Exec.{Result, ok, fail, continue, pure}
use spdlite.Disk.{
  FilePath, Node, Entries, Disk, faulty, stepped, lookup, erase, same_file, remove, succeeds,
  file_size, iteration_error,
}
use spdlite.Disk.Laws.{lookup-erase, same_file_iff}
use spdlite.Rotating.{
  archive_index, walk, first_pass, prune_entry, prune, second_pass, scan_and_prune_archives_,
  entries_of,
}
use spdlite.Rotating.Prune.{parse-active, index_name}

-- The node of the active file.
abbrev pub active : FilePath → Disk → Option Node
active base d = lookup base d.entries

remove-others :
    (d : Disk) (p q : FilePath)
    → same_file p q ≡ false
    → lookup q (remove d p).1.entries ≡ lookup q d.entries
unfolding remove
remove-others d p q other = by_fault (faulty d)
  where
    by_fault :
        (t : Bool)
        → (let out : Bool × Disk =
              if t then (true, stepped d d.entries) else (false, stepped d (erase p d.entries)) in
            lookup q out.1.entries ≡ lookup q d.entries)
    by_fault true = refl
    by_fault false = lookup-erase p q d.entries ∙ if_false _ other

pub file_size-entries : (d : Disk) (p : FilePath) → (file_size d p).1.entries ≡ d.entries
unfolding file_size
file_size-entries d p = ground (arith, lookup p d.entries)

module _ (base : FilePath) where
  -- The active file is no archive.
  not_archive :
      (e : FilePath × Node) (n : ℕ) → archive_index base e ≡ some n → same_file e.0 base ≡ false
  not_archive e n index = by_test (same_file e.0 base) refl
    where
      by_test : (t : Bool) → same_file e.0 base ≡ t → t ≡ false
      by_test false h = refl
      by_test true h =
          let same : e.0.filename ≡ base.filename = ap (λ k. k.1) ((same_file_iff e.0 base).0 h) in
          let parsed = index_name base 0 e n index in
          absurd (cc (parsed, same, parse-active base.filename))

  walk-active : (l : Entries) (d : Disk) → active base (walk l d).1 ≡ active base d
  unfolding walk succeeds
  walk-active [] d = refl
  walk-active (e ∷ l) d = by_move (not (faulty d)) (walk-active l (stepped d d.entries))
    where
      by_move :
          (t : Bool)
          → active base (walk l (stepped d d.entries)).1 ≡ active base d
          → (let out : Bool × Disk =
                if t then walk l (stepped d d.entries) else (false, stepped d d.entries) in
              active base out.1 ≡ active base d)
      by_move true h = h
      by_move false h = refl

  module _ (lowest : ℕ) where
    prune_entry-active :
        (e : FilePath × Node) (d : Disk)
        → active base (prune_entry base lowest e d).1 ≡ active base d
    unfolding prune_entry
    prune_entry-active e d = by_index (archive_index base e) refl
      where
        by_test :
            (n : ℕ) (t : Bool)
            → archive_index base e ≡ some n
            → (let out : Bool × Disk = if t then remove d e.0 else (false, d) in
                active base out.1 ≡ active base d)
        by_test n true h = remove-others d e.0 base (not_archive e n h)
        by_test n false h = refl

        by_index :
            (o : Option ℕ)
            → archive_index base e ≡ o
            → (let out : Bool × Disk = elim o [
              | none ↦ (false, d)
              | some n ↦ if ltb n lowest then remove d e.0 else (false, d)
            ] in
                active base out.1 ≡ active base d)
        by_index none h = refl
        by_index (some n) h = by_test n (ltb n lowest) h

    prune-active :
        (l : Entries) (ec : Bool) (d : Disk)
        → active base (prune base lowest l ec d).1 ≡ active base d
    unfolding prune succeeds
    prune-active [] ec d = refl
    prune-active (e ∷ l) true d = refl
    prune-active (e ∷ l) false d =
        by_round (λ ec d'. prune-active l ec d') (prune_entry base lowest e d)
        ∙ prune_entry-active e d
      where
        by_move :
            ((ec : Bool) (d' : Disk) → active base (prune base lowest l ec d').1 ≡ active base d')
            → (p : Bool × Disk) (t : Bool)
            → (let out : Bool × Disk =
                  if t
                  then prune base lowest l p.0 (stepped p.1 p.1.entries)
                  else (false, stepped p.1 p.1.entries) in
                active base out.1 ≡ active base p.1)
        by_move rest p true = rest p.0 (stepped p.1 p.1.entries)
        by_move rest p false = refl

        by_round :
            ((ec : Bool) (d' : Disk) → active base (prune base lowest l ec d').1 ≡ active base d')
            → (p : Bool × Disk)
            → (let out : Bool × Disk =
                  if not (faulty p.1)
                  then prune base lowest l p.0 (stepped p.1 p.1.entries)
                  else (false, stepped p.1 p.1.entries) in
                active base out.1 ≡ active base p.1)
        by_round rest p = by_move rest p (not (faulty p.1))

  -- What the scan may end with: the first pass and the second throw the same.
  pub data Scanned (d : Disk) (out : Result ℕ × Disk) : Type 0 where
    scanned : (n : ℕ) → out.0 ≡ ok n → active base out.1 ≡ active base d → Scanned d out
    broken : out.0 ≡ fail iteration_error → active base out.1 ≡ active base d → Scanned d out

  from_same :
      (d d' : Disk) (o : Result ℕ × Disk)
      → active base d' ≡ active base d
      → Scanned d' o
      → Scanned d o
  from_same d d' o h (scanned n r a) = scanned n r (a ∙ h)
  from_same d d' o h (broken r a) = broken r (a ∙ h)

  by_walk :
      (d : Disk) (n : ℕ) (w : Bool × Disk)
      → active base w.1 ≡ active base d
      → (let out : Result ℕ × Disk = (if w.0 then ok n else fail iteration_error, w.1) in
          Scanned d out)
  by_walk d n (true, x) h = scanned n refl h
  by_walk d n (false, x) h = broken refl h

  first_pass-Scanned : (d : Disk) → Scanned d (first_pass base d)
  unfolding first_pass succeeds
  first_pass-Scanned d = by_walk d _ (walk _ _) (walk-active _ _)

  second_pass-Scanned :
      (max_files highest : ℕ) (d : Disk) → Scanned d (second_pass base max_files highest d)
  unfolding second_pass succeeds
  second_pass-Scanned max_files highest d = by_test (ltb max_files highest)
    where
      pass : Bool × Disk
      pass =
          prune base (highest - max_files + 1) (entries_of base (succeeds d)) false
            (stepped d d.entries)

      by_test :
          (t : Bool)
          → (let out : Result ℕ × Disk =
                if t
                then (if pass.0 then ok highest else fail iteration_error, pass.1)
                else (ok highest, d) in
              Scanned d out)
      by_test true = by_walk d highest pass (prune-active _ _ _ _)
      by_test false = scanned highest refl refl

  pub scan-Scanned :
      (max_files : ℕ) (d : Disk) → Scanned d (scan_and_prune_archives_ base max_files d)
  unfolding scan_and_prune_archives_ succeeds
  scan-Scanned max_files d = by_found (not (faulty d))
    where
      after : ℕ → Disk → Result ℕ × Disk
      after highest = if highest == 0 then pure 0 else second_pass base max_files highest

      by_zero :
          (t : Bool) (highest : ℕ) (x : Disk)
          → active base x ≡ active base d
          → (let m : Disk → Result ℕ × Disk =
                if t then pure 0 else second_pass base max_files highest in
              Scanned d (m x))
      by_zero true highest x h = scanned 0 refl h
      by_zero false highest x h = from_same d x _ h (second_pass-Scanned max_files highest x)

      by_first : (o : Result ℕ × Disk) → Scanned d o → Scanned d (continue o.0 after o.1)
      by_first (ok n, x) (scanned m r a) = by_zero (n == 0) n x a
      by_first (ok n, x) (broken r a) = by_zero (n == 0) n x a
      by_first (fail e, x) (scanned m r a) = scanned m (cc r) a
      by_first (fail e, x) (broken r a) = broken (cc r) a

      by_found :
          (t : Bool)
          → (let out : Result ℕ × Disk =
                if t
                then continue
                    (first_pass base (stepped d d.entries)).0
                    after
                    (first_pass base (stepped d d.entries)).1
                else (ok 0, stepped d d.entries) in
              Scanned d out)
      by_found true =
          by_first (first_pass base (stepped d d.entries))
            (from_same d (stepped d d.entries) _ refl (first_pass-Scanned (stepped d d.entries)))
      by_found false = scanned 0 refl refl
