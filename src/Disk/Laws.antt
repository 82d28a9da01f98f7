-- ===== src/Disk/Laws.antt =====
-- The disk as a map from files to nodes: each call in terms of `lookup`.
use spdlite.Base.{
  ◌≡◌, ◌↔◌, refl, sym, arith, [], ◌∷◌, Bytes, Bool, true, false, none, some, if◌then◌else◌,
}
use spdlite.Disk.{FilePath, eq_bytes, directory, same_file, Node, Entries, lookup, erase, put}

pub eq_bytes_iff : (s t : Bytes) → (eq_bytes s t ≡ true) ↔ (s ≡ t)
eq_bytes_iff [] [] = ((λ _. refl), (λ _. refl))
eq_bytes_iff [] (d ∷ t) = ground arith
eq_bytes_iff (c ∷ s) [] = ground arith
eq_bytes_iff (c ∷ s) (d ∷ t) = ground (arith, eq_bytes_iff s t)

pub eq_bytes_refl : (s : Bytes) → eq_bytes s s ≡ true
eq_bytes_refl s = (eq_bytes_iff s s).1 refl

-- Two paths name one file when their directories and their names are the same.
abbrev pub key : FilePath → Bytes × Bytes
key p = (directory p.parent_path, p.filename)

pub same_file_iff : (p q : FilePath) → (same_file p q ≡ true) ↔ (key p ≡ key q)
same_file_iff p q = ground (
  arith,
  eq_bytes_iff (directory p.parent_path) (directory q.parent_path),
  eq_bytes_iff p.filename q.filename,
)

pub same_file_refl : (p : FilePath) → same_file p p ≡ true
same_file_refl p = (same_file_iff p p).1 refl

pub same_file_sym : (p q : FilePath) → same_file p q ≡ false → same_file q p ≡ false
same_file_sym p q h = by_test (same_file q p) refl
  where
    by_test : (t : Bool) → same_file q p ≡ t → t ≡ false
    by_test false e = refl
    by_test true e = absurd (cc (h, (same_file_iff p q).1 (sym ((same_file_iff q p).0 e))))

pub lookup-erase :
    (p q : FilePath) (es : Entries)
    → lookup q (erase p es) ≡ (if same_file p q then none else lookup q es)
unfolding lookup erase
lookup-erase p q [] = ground arith
lookup-erase p q ((x, n) ∷ es) =
    ground (arith, lookup-erase p q es, same_file_iff x p, same_file_iff x q, same_file_iff p q)

pub lookup-put :
    (p q : FilePath) (n : Node) (es : Entries)
    → lookup q (put p n es) ≡ (if same_file p q then some n else lookup q es)
unfolding lookup put
lookup-put p q n [] = refl
lookup-put p q n ((x, m) ∷ es) = ground (
  arith,
  lookup-put p q n es,
  lookup-erase p q es,
  same_file_iff x p,
  same_file_iff x q,
  same_file_iff p q,
)
