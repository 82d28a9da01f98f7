-- ===== src/Rotating/Scanning.antt =====
-- The whole scan for archives on a disk where no call fails (`scan_and_prune_archives_` in
-- include/spdlite/sinks/rotating_file_sink.h).
use spdlite.Base.{
  ℕ, ◌+◌, ◌-◌, ◌≡◌, refl, ap, ◌∙◌, arith, [], ◌∷◌, Bool, true, false, ltb, ◌==◌, if◌then◌else◌,
}
use spdlite.Disk.{FilePath, Entries, Disk, listing, succeeds, iteration_error}
use spdlite.Base.Exec.{Result, ok, fail, continue, pure}
use spdlite.Rotating.{highest_index, walk, first_pass, second_pass, scan_and_prune_archives_}
use spdlite.Rotating.Prune.{pruned}
use spdlite.Rotating.Pruning.{prune-pruned}
use spdlite.Rotating.Steps.{calm}

walk-calm : (l es : Entries) → walk l (calm es) ≡ (true, calm es)
unfolding walk succeeds
walk-calm [] es = refl
walk-calm (e ∷ l) es = walk-calm l es

module _ (base : FilePath) (max : ℕ) (es : Entries) where
  abbrev pub found : ℕ
  found = highest_index base (listing base.parent_path es) 0

  -- What the scan leaves on a calm disk.
  abbrev pub behind_scan : Entries
  behind_scan =
      if found == 0
      then es
      else if ltb max found
      then pruned base (found - max + 1) (listing base.parent_path es) es
      else es

  first_pass-calm : first_pass base (calm es) ≡ (ok found, calm es)
  unfolding first_pass succeeds
  first_pass-calm =
      ap
        (λ (w : Bool × Disk).
          let r : Result ℕ = if w.0 then ok found else fail iteration_error in (r, w.1))
        (walk-calm (listing base.parent_path es) es)

  second_pass-calm : second_pass base max found (calm es) ≡ (
    ok found,
    calm (
        if ltb max found
        then pruned base (found - max + 1) (listing base.parent_path es) es
        else es),
  )
  unfolding second_pass succeeds
  second_pass-calm =
      ap
        (λ (w : Bool × Disk).
          let out : Result ℕ × Disk =
            if ltb max found
            then (if w.0 then ok found else fail iteration_error, w.1)
            else (ok found, calm es) in
          out)
        (prune-pruned base (found - max + 1) (listing base.parent_path es) es)
      ∙ by_test (ltb max found)
    where
      by_test :
          (t : Bool)
          → (let out : Result ℕ × Disk =
                if t
                then (
                  ok found,
                  calm (pruned base (found - max + 1) (listing base.parent_path es) es),
                )
                else (ok found, calm es) in
              out)
            ≡ (
              ok found,
              calm (
                  if t then pruned base (found - max + 1) (listing base.parent_path es) es else es),
            )
      by_test true = refl
      by_test false = refl

  -- The scan returns the highest index, pruning or not.
  pub scan_and_prune_archives_-calm :
      scan_and_prune_archives_ base max (calm es) ≡ (ok found, calm behind_scan)
  unfolding scan_and_prune_archives_ succeeds
  scan_and_prune_archives_-calm =
      ap
        (λ (o : Result ℕ × Disk).
          continue o.0 (λ highest. if highest == 0 then pure 0 else second_pass base max highest)
            o.1)
        first_pass-calm
      ∙ by_test (found == 0) refl
    where
      by_test :
          (t : Bool)
          → (found == 0) ≡ t
          → (if t then pure 0 else second_pass base max found) (calm es) ≡ (
            ok found,
            calm (
                if t
                then es
                else if ltb max found
                then pruned base (found - max + 1) (listing base.parent_path es) es
                else es),
          )
      by_test true h = ap (λ k. (ok k, calm es)) (ground (arith, h))
      by_test false h = second_pass-calm
