-- ===== src/Rotating/Retries.antt =====
-- The retries of a rename (`try_rename_` in include/spdlite/sinks/rotating_file_sink.h).
use spdlite.Base.{
  ℕ, zero, suc, ◌≡◌, refl, sym, ◌∙◌, arith, List, [], ◌∷◌, Bool, true, false, Option, none, some,
  ltb, length, if◌then◌else◌, if_true, if_false,
}
use spdlite.Disk.{FilePath, Node, Entries, Disk, same_file, lookup, erase, put, remove, rename}
use spdlite.Disk.Laws.{lookup-erase, lookup-put, same_file_refl, same_file_sym}
use spdlite.Rotating.{try_rename_}

-- Rounds in which the rename fails, whether the removal before it fails or not.
abbrev pub failed_rounds : List (Option ℕ × ℕ) → List (Option ℕ)
failed_rounds [] = []
failed_rounds ((removal, k) ∷ rounds) = removal ∷ some k ∷ failed_rounds rounds

-- The outcome: `src` is the file `dst` now, or still there; no third file has changed.
pub record Retried (src dst : FilePath) (n : Node) (es : Entries) (moved : Bool) (out : Bool × Disk)
    : Type 0 where
  pub result : out.0 ≡ moved
  pub source : lookup src out.1.entries ≡ (if moved then none else some n)
  pub target : moved ≡ true → lookup dst out.1.entries ≡ some n
  pub others :
      (q : FilePath)
      → same_file src q ≡ false
      → same_file dst q ≡ false
      → lookup q out.1.entries ≡ lookup q es

module _ (src dst : FilePath) (n : Node) (different : same_file src dst ≡ false) where
  -- One more round that failed.
  behind_round :
      (es es' : Entries) (moved : Bool) (out : Bool × Disk)
      → ((q : FilePath) → same_file dst q ≡ false → lookup q es' ≡ lookup q es)
      → Retried src dst n es' moved out
      → Retried src dst n es moved out
  behind_round es es' moved out same h = record {
    result = h.result;
    source = h.source;
    target = h.target;
    others = λ q a b. h.others q a b ∙ same q b;
  }

  without_target :
      (es : Entries) (q : FilePath)
      → same_file dst q ≡ false
      → lookup q (erase dst es) ≡ lookup q es
  without_target es q other = lookup-erase dst q es ∙ if_false _ other

  moved-Retried :
      (es : Entries)
      → lookup src es ≡ some n
      → Retried src dst n es true
          (true, record { entries = put dst n (erase src (erase dst es)); faults = [] })
  moved-Retried es at = record {
    result = refl;
    source =
        lookup-put dst src n (erase src (erase dst es))
        ∙ if_false _ (same_file_sym src dst different)
        ∙ lookup-erase src src (erase dst es)
        ∙ if_true _ (same_file_refl src);
    target = λ e. lookup-put dst dst n (erase src (erase dst es)) ∙ if_true _ (same_file_refl dst);
    others = λ q a b.
        lookup-put dst q n (erase src (erase dst es))
        ∙ if_false _ b
        ∙ lookup-erase src q (erase dst es)
        ∙ if_false _ a
        ∙ without_target es q b;
  }

  same_moved :
      {es : Entries} {a b : Bool} {out : Bool × Disk}
      → a ≡ b
      → Retried src dst n es a out
      → Retried src dst n es b out
  same_moved e h = rw (sym e) h

  both_less : (a b : ℕ) → ltb a b ≡ ltb (suc a) (suc b)
  both_less a b = ground arith

  -- On a disk where the rename fails in the first rounds, whether the removal before it fails or
  -- not, and no call fails behind them, the retries end: they succeed exactly when fewer rounds
  -- fail than there are attempts; then the old path is gone and the new one is that file, and
  -- otherwise the old one is still there. No third file changes. The two paths are different files,
  -- and the old one is on the disk.
  pub try_rename_-Retried :
      (attempts : ℕ) (rounds : List (Option ℕ × ℕ)) (es : Entries)
      → lookup src es ≡ some n
      → Retried src dst n es
          (ltb (length rounds) attempts)
          (try_rename_ attempts src dst (record { entries = es; faults = failed_rounds rounds }))
  unfolding try_rename_ remove rename
  try_rename_-Retried zero rounds es at =
      same_moved (none_left (length rounds))
        (record { result = refl; source = at; target = λ e. absurd (cc e); others = λ q a b. refl })
    where
      none_left : (k : ℕ) → false ≡ ltb k 0
      none_left k = ground arith
  try_rename_-Retried (suc attempts) [] es at = same_moved (one_left attempts) (
      rw (lookup-erase dst src es ∙ if_false _ (same_file_sym src dst different) ∙ at)
        (moved-Retried es at))
    where
      one_left : (k : ℕ) → true ≡ ltb 0 (suc k)
      one_left k = ground arith
  try_rename_-Retried (suc attempts) ((none, k) ∷ rounds) es at =
      same_moved (both_less (length rounds) attempts) (
        behind_round es (erase dst es) _ _ (without_target es) (
          try_rename_-Retried attempts rounds (erase dst es)
            (lookup-erase dst src es ∙ if_false _ (same_file_sym src dst different) ∙ at)))
  try_rename_-Retried (suc attempts) ((some j, k) ∷ rounds) es at =
      same_moved (both_less (length rounds) attempts) (try_rename_-Retried attempts rounds es at)
