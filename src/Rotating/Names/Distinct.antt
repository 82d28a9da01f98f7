-- ===== src/Rotating/Names/Distinct.antt =====
-- The files that the archives of one sink name (include/spdlite/sinks/rotating_file_sink.h).
use spdlite.Base.{
  ℕ, ◌<◌, ◌≡◌, ◌≢◌, ◌↔◌, refl, sym, ap, ◌∙◌, arith, [], Bytes, Bool, true, false, some, ◌==◌,
  length, length-append, Bool-cases, inl, inr,
}
use spdlite.Disk.{FilePath, same_file}
use spdlite.Disk.Laws.{key, same_file_iff}
use spdlite.Rotating.Names.{stem, extension, max_idx, parse_archive_index_}
use spdlite.Rotating.Names.RoundTrip.{archive_name, parse-archive_name}
use spdlite.Rotating.Names.Cutting.{cut_name-shape}

bool_ext : (a b : Bool) → (a ≡ true → b ≡ true) → (b ≡ true → a ≡ true) → a ≡ b
bool_ext true true f g = refl
bool_ext false false f g = refl
bool_ext true false f g = sym (f refl)
bool_ext false true f g = g refl

==_iff : (a b : ℕ) → ((a == b) ≡ true) ↔ (a ≡ b)
==_iff a b = ground arith

not_same : (p q : FilePath) → (key p ≡ key q → ⊥) → same_file p q ≡ false
not_same p q h = elim (Bool-cases (same_file p q)) [
  | inl same ↦ absurd (h ((same_file_iff p q).0 same))
  | inr differ ↦ differ
]

-- `archive_path_`, as far as its names go.
module _ (dir name : Bytes) (named : name ≢ []) where
  abbrev pub archive : ℕ → FilePath
  archive n = record { parent_path = dir; filename = archive_name name n }

  archive_name-injective :
      (n m : ℕ)
      → (0 < n) × (n < max_idx)
      → (0 < m) × (m < max_idx)
      → archive_name name n ≡ archive_name name m
      → n ≡ m
  archive_name-injective n m hn hm e =
      let read_n = parse-archive_name name n named hn.0 hn.1 in
      let read_m = parse-archive_name name m named hm.0 hm.1 in
      let same = ap (λ s. parse_archive_index_ s (stem name) (extension name)) e in
      some_injective (sym read_n ∙ same ∙ read_m)
    where
      some_injective : {a b : ℕ} → some a ≡ some b → a ≡ b
      some_injective h = ground arith

  pub same_file-archive :
      (n m : ℕ)
      → (0 < n) × (n < max_idx)
      → (0 < m) × (m < max_idx)
      → same_file (archive n) (archive m) ≡ (n == m)
  same_file-archive n m hn hm =
      bool_ext (same_file (archive n) (archive m)) (n == m)
        (λ h. (==_iff n m).1 (
          archive_name-injective n m hn hm
            (ap (λ k. k.1) ((same_file_iff (archive n) (archive m)).0 h))))
        (λ h.
          (same_file_iff (archive n) (archive m)).1 (ap (λ k. key (archive k)) ((==_iff n m).0 h)))

  length-archive_name : (n : ℕ) → length name < length (archive_name name n)
  length-archive_name n =
      let parts = ap length (cut_name-shape name).0 in
      simp length-append (omega (arith, parts, length-append (stem name) (extension name)))

  pub same_file-active :
      (p : FilePath) (n : ℕ)
      → p.filename ≡ name
      → (same_file (archive n) p ≡ false) × (same_file p (archive n) ≡ false)
  same_file-active p n e = (
    not_same (archive n) p
        (λ h. absurd (omega (arith, ap length (ap (λ k. k.1) h ∙ e), length-archive_name n))),
    not_same p (archive n)
        (λ h. absurd (omega (arith, ap length (sym (ap (λ k. k.1) h) ∙ e), length-archive_name n))),
  )
