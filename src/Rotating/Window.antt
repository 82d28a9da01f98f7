-- ===== src/Rotating/Window.antt =====
-- Which archives there are behind a rotation: the new one comes, one leaves the window, and the
-- others stay.
use spdlite.Base.{
  ℕ, ◌+◌, ◌-◌, ◌<◌, ◌≡◌, ◌≢◌, refl, ap, ◌∙◌, arith, [], Bool, true, false, ◌&&◌, none, some, ltb,
  ◌==◌, if◌then◌else◌, if_true, if_false, Bool-cases, ltb→lt, inl, inr,
}
use spdlite.Disk.{FilePath, Node, Entries, same_file, lookup, erase}
use spdlite.Disk.Laws.{lookup-erase, lookup-put, same_file_refl}
use spdlite.Rotating.{archive_path_}
use spdlite.Rotating.Names.{max_idx}
use spdlite.Rotating.Names.Distinct.{same_file-archive, same_file-active}
use spdlite.Rotating.Steps.{renamed, dropped}

if_if {ℓ} :
    {A : Type ℓ} (t : Bool) (x y z : A)
    → (if t then x else (if t then y else z)) ≡ (if t then x else z)
if_if true x y z = refl
if_if false x y z = refl

module _ (b : FilePath) (named : b.filename ≢ []) where
  -- Two archives of one sink, whose file name is not empty, are the same file exactly when their
  -- indices are the same. The indices are positive and below SIZE_MAX.
  pub same_archive :
      (n m : ℕ)
      → (0 < n) × (n < max_idx)
      → (0 < m) × (m < max_idx)
      → same_file (archive_path_ b n) (archive_path_ b m) ≡ (n == m)
  unfolding archive_path_
  same_archive n m hn hm = same_file-archive b.parent_path b.filename named n m hn hm

  pub not_active :
      (n : ℕ)
      → (same_file (archive_path_ b n) b ≡ false) × (same_file b (archive_path_ b n) ≡ false)
  unfolding archive_path_
  not_active n = same_file-active b.parent_path b.filename named b n refl

  -- The active file and the archives behind a rotation.
  pub active_found : (k : ℕ) (es : Entries) → lookup b (erase (archive_path_ b k) es) ≡ lookup b es
  active_found k es = lookup-erase (archive_path_ b k) b es ∙ if_false _ (not_active k).0

  pub renamed_archive :
      (k n : ℕ) (node : Node) (es : Entries)
      → (0 < k) × (k < max_idx)
      → (0 < n) × (n < max_idx)
      → lookup (archive_path_ b n) (renamed b k node es)
        ≡ (if k == n then some node else lookup (archive_path_ b n) es)
  renamed_archive k n node es hk hn =
      let ak = archive_path_ b k in
      let an = archive_path_ b n in
      let behind =
        lookup-erase b an (erase ak es) ∙ if_false _ (not_active n).1 ∙ lookup-erase ak an es in
      lookup-put ak an node (erase b (erase ak es))
      ∙ ap (λ r. if same_file ak an then some node else r) behind
      ∙ if_if (same_file ak an) (some node) none (lookup an es)
      ∙ ap (λ t. if t then some node else lookup an es) (same_archive k n hk hn)

  pub renamed_active : (k : ℕ) (node : Node) (es : Entries) → lookup b (renamed b k node es) ≡ none
  renamed_active k node es =
      lookup-put (archive_path_ b k) b node (erase b (erase (archive_path_ b k) es))
      ∙ if_false _ (not_active k).0
      ∙ lookup-erase b b (erase (archive_path_ b k) es)
      ∙ if_true _ (same_file_refl b)

  module _ (max k : ℕ) (es : Entries) where
    pub dropped_archive :
        (n : ℕ)
        → (0 < k) × (k < max_idx)
        → (0 < n) × (n < max_idx)
        → lookup (archive_path_ b n) (dropped b max (k + 1) es)
          ≡ (if ltb max k && k - max == n then none else lookup (archive_path_ b n) es)
    dropped_archive n hk hn = elim (Bool-cases (ltb max k)) [
      | inl past ↦ dropped_past past
      | inr within ↦ dropped_within within
    ]
      where
        lowest : k + 1 - max - 1 ≡ k - max
        lowest = omega arith

        same_test : ltb (max + 1) (k + 1) ≡ ltb max k
        same_test = ground arith

        dropped_past :
            ltb max k ≡ true
            → lookup (archive_path_ b n) (dropped b max (k + 1) es)
              ≡ (if ltb max k && k - max == n then none else lookup (archive_path_ b n) es)
        dropped_past past =
            rw (same_test, past, lowest)
              (lookup-erase (archive_path_ b (k - max)) (archive_path_ b n) es
                ∙ ap (λ t. if t then none else lookup (archive_path_ b n) es)
                    (same_archive (k - max) n (omega (arith, ltb→lt max k past)) hn))

        dropped_within :
            ltb max k ≡ false
            → lookup (archive_path_ b n) (dropped b max (k + 1) es)
              ≡ (if ltb max k && k - max == n then none else lookup (archive_path_ b n) es)
        dropped_within within = rw (same_test, within)

    pub dropped_active : lookup b es ≡ none → lookup b (dropped b max (k + 1) es) ≡ none
    dropped_active h = by_test (ltb (max + 1) (k + 1))
      where
        oldest : FilePath
        oldest = archive_path_ b (k + 1 - max - 1)

        by_test : (t : Bool) → lookup b (if t then erase oldest es else es) ≡ none
        by_test true = lookup-erase oldest b es ∙ if_false _ (not_active (k + 1 - max - 1)).0 ∙ h
        by_test false = h
