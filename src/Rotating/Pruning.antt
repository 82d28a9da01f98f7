-- ===== src/Rotating/Pruning.antt =====
-- The second loop of the scan on a disk where no call fails (`scan_and_prune_archives_` in
-- include/spdlite/sinks/rotating_file_sink.h).
use spdlite.Base.{
  ℕ, ◌≡◌, refl, sym, ap, ◌∙◌, [], ◌∷◌, Bool, true, false, Option, none, some, ltb, if◌then◌else◌,
}
use spdlite.Disk.{FilePath, Node, Entries, Disk, succeeds, erase, remove}
use spdlite.Rotating.{archive_index, prune_entry, prune}
use spdlite.Rotating.Steps.{calm}
use spdlite.Rotating.Prune.{pruned}

module _ (base : FilePath) (lowest : ℕ) where
  -- The entries behind one round.
  abbrev one_pruned : FilePath × Node → Entries → Entries
  one_pruned e es = elim (archive_index base e) [
    | none ↦ es
    | some n ↦ if ltb n lowest then erase e.0 es else es
  ]

  prune_entry-calm :
      (e : FilePath × Node) (es : Entries)
      → prune_entry base lowest e (calm es) ≡ (false, calm (one_pruned e es))
  unfolding prune_entry remove
  prune_entry-calm e es = by_index (archive_index base e)
    where
      by_test :
          (t : Bool)
          → (let out : Bool × Disk = if t then (false, calm (erase e.0 es)) else (false, calm es) in
              out ≡ (false, calm (if t then erase e.0 es else es)))
      by_test true = refl
      by_test false = refl

      by_index :
          (o : Option ℕ)
          → (let out : Bool × Disk = elim o [
            | none ↦ (false, calm es)
            | some n ↦ if ltb n lowest then remove (calm es) e.0 else (false, calm es)
          ] in
              out ≡ (
                false,
                calm (elim o [ none ↦ es | some n ↦ if ltb n lowest then erase e.0 es else es ]),
              ))
      by_index none = refl
      by_index (some n) = by_test (ltb n lowest)

  pruned-one :
      (e : FilePath × Node) (l es : Entries)
      → pruned base lowest (e ∷ l) es ≡ pruned base lowest l (one_pruned e es)
  unfolding pruned
  pruned-one e l es = by_index (archive_index base e)
    where
      by_test :
          (t : Bool)
          → (if t then pruned base lowest l (erase e.0 es) else pruned base lowest l es)
            ≡ pruned base lowest l (if t then erase e.0 es else es)
      by_test true = refl
      by_test false = refl

      by_index :
          (o : Option ℕ)
          → elim o [
            | none ↦ pruned base lowest l es
            | some n ↦
                if ltb n lowest
                then pruned base lowest l (erase e.0 es)
                else pruned base lowest l es
          ]
            ≡ pruned base lowest l
                (elim o [ none ↦ es | some n ↦ if ltb n lowest then erase e.0 es else es ])
      by_index none = refl
      by_index (some n) = by_test (ltb n lowest)

  pub prune-pruned :
      (l es : Entries)
      → prune base lowest l false (calm es) ≡ (true, calm (pruned base lowest l es))
  unfolding prune pruned succeeds
  prune-pruned [] es = refl
  prune-pruned (e ∷ l) es =
      ap
        (λ (p : Bool × Disk).
          let (moved, d) = succeeds p.1 in
          let rest = prune base lowest l p.0 d in if moved then rest else (false, d))
        (prune_entry-calm e es)
      ∙ prune-pruned l (one_pruned e es)
      ∙ ap (λ xs. (true, calm xs)) (sym (pruned-one e l es))
