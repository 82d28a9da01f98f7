-- ===== src/Rotating/Prune.antt =====
-- What the second pass of the scan removes (`scan_and_prune_archives_` in
-- include/spdlite/sinks/rotating_file_sink.h).
use spdlite.Base.{
  ℕ, ◌<◌, ◌≤◌, ◌≡◌, refl, sym, ap, ◌∙◌, arith, [], ◌∷◌, Bytes, Bool, true, false, ◌&&◌, not, Option,
  none, some, ltb, length, length-append, if◌then◌else◌, if_true, if_false, Bool-cases, inl, inr,
}
use spdlite.Disk.{
  FilePath, Node, regular, symlink, other, Entries, eq_bytes, same_file, lookup, erase, directory,
  listing,
}
use spdlite.Disk.Laws.{eq_bytes_iff, eq_bytes_refl, lookup-erase, same_file_iff, key}
use spdlite.Rotating.{archive_index}
use spdlite.Rotating.Names.{parse_archive_index_, parse_digits, stem, extension}
use spdlite.Rotating.Names.Cutting.{cut_name-shape}

no_extension : (g : Bytes) → stem g ≡ g → extension g ≡ []
no_extension g h = nothing (extension g) (
    omega
      (arith, ap length (cut_name-shape g).0, length-append (stem g) (extension g), ap length h))
  where
    nothing : (s : Bytes) → length s ≡ 0 → s ≡ []
    nothing [] e = refl
    nothing (c ∷ s) e = absurd (omega (arith, e))

-- The active file's own name is no archive's.
pub parse-active : (f : Bytes) → parse_archive_index_ f (stem f) (extension f) ≡ none
unfolding parse_archive_index_
parse-active f = by_extension (eq_bytes (extension f) []) refl
  where
    same_stem :
        (t : Bool)
        → eq_bytes (stem (stem f)) (stem f) ≡ t
        → (if not t then none else parse_digits (extension (stem f))) ≡ none
    same_stem false e = refl
    same_stem true e =
        ap parse_digits (no_extension (stem f) ((eq_bytes_iff (stem (stem f)) (stem f)).0 e))

    by_extension :
        (b : Bool)
        → eq_bytes (extension f) [] ≡ b
        → (let inner = if b then f else stem f in
            if not b && not (eq_bytes (extension f) (extension f))
            then none
            else if not (eq_bytes (stem inner) (stem f))
            then none
            else parse_digits (extension inner))
          ≡ none
    by_extension true e =
        rw (eq_bytes_refl (stem f)) (ap parse_digits ((eq_bytes_iff (extension f) []).0 e))
    by_extension false e =
        rw (eq_bytes_refl (extension f)) (same_stem (eq_bytes (stem (stem f)) (stem f)) refl)

module _ (base : FilePath) (lowest : ℕ) where
  -- The entries behind the pass over `l`.
  unfoldable pub pruned : Entries → Entries → Entries
  pruned [] es = es
  pruned (e ∷ l) es = elim (archive_index base e) [
    | none ↦ pruned l es
    | some n ↦ if ltb n lowest then pruned l (erase e.0 es) else pruned l es
  ]

  abbrev parsed : FilePath → Option ℕ
  parsed p = parse_archive_index_ p.filename (stem base.filename) (extension base.filename)

  pub index_name :
      (e : FilePath × Node) (n : ℕ) → archive_index base e ≡ some n → parsed e.0 ≡ some n
  unfolding archive_index
  index_name (p, regular s) n h = h
  index_name (p, symlink) n h = ground (arith, h)
  index_name (p, other) n h = ground (arith, h)

  module _ (q : FilePath) where
    -- A file whose name is that of no archive below the limit is not removed.
    other_file :
        (e : FilePath × Node) (n : ℕ)
        → ((m : ℕ) → parsed q ≡ some m → lowest ≤ m)
        → archive_index base e ≡ some n
        → n < lowest
        → same_file e.0 q ≡ false
    other_file e n high index low = elim (Bool-cases (same_file e.0 q)) [
      | inl same ↦
          (let same_name : e.0.filename ≡ q.filename =
              ap (λ k. k.1) ((same_file_iff e.0 q).0 same) in
            let named : parsed q ≡ some n =
              ap (λ f. parse_archive_index_ f (stem base.filename) (extension base.filename))
                (sym same_name)
              ∙ index_name e n index in
            absurd (omega (arith, high n named, low)))
      | inr different ↦ different
    ]

    pub spared :
        (l es : Entries)
        → ((m : ℕ) → parsed q ≡ some m → lowest ≤ m)
        → lookup q (pruned l es) ≡ lookup q es
    unfolding pruned
    spared [] es high = refl
    spared (e ∷ l) es high = by_index (archive_index base e) refl (λ xs. spared l xs high)
      where
        by_index :
            (o : Option ℕ)
            → archive_index base e ≡ o
            → ((xs : Entries) → lookup q (pruned l xs) ≡ lookup q xs)
            → lookup q (elim o [
              | none ↦ pruned l es
              | some n ↦ if ltb n lowest then pruned l (erase e.0 es) else pruned l es
            ])
              ≡ lookup q es
        by_index none index rest = rest es
        by_index (some n) index rest = by_test (ltb n lowest) refl
          where
            by_test :
                (t : Bool)
                → ltb n lowest ≡ t
                → lookup q (if t then pruned l (erase e.0 es) else pruned l es) ≡ lookup q es
            by_test true low =
                rest (erase e.0 es)
                ∙ lookup-erase e.0 q es
                ∙ if_false _ (other_file e n high index (ground (arith, low)))
            by_test false low = rest es

    -- A file that is not there does not appear.
    pub still_absent : (l es : Entries) → lookup q es ≡ none → lookup q (pruned l es) ≡ none
    unfolding pruned
    still_absent [] es h = h
    still_absent (e ∷ l) es h = by_index (archive_index base e) (λ xs k. still_absent l xs k)
      where
        erased : lookup q (erase e.0 es) ≡ none
        erased = lookup-erase e.0 q es ∙ ground (arith, h)

        by_index :
            (o : Option ℕ)
            → ((xs : Entries) → lookup q xs ≡ none → lookup q (pruned l xs) ≡ none)
            → lookup q (elim o [
              | none ↦ pruned l es
              | some n ↦ if ltb n lowest then pruned l (erase e.0 es) else pruned l es
            ])
              ≡ none
        by_index none rest = rest es h
        by_index (some n) rest = by_test (ltb n lowest)
          where
            by_test :
                (t : Bool) → lookup q (if t then pruned l (erase e.0 es) else pruned l es) ≡ none
            by_test true = rest (erase e.0 es) erased
            by_test false = rest es h

    index_here :
        (p : FilePath) (node : Node) (s : Bytes) (n : ℕ)
        → key p ≡ key q
        → node ≡ regular s
        → parsed q ≡ some n
        → archive_index base (p, node) ≡ some n
    unfolding archive_index
    index_here p node s n k e name = rw e (
        ap (λ f. parse_archive_index_ f (stem base.filename) (extension base.filename))
          (ap (λ z. z.1) k)
        ∙ name)

    -- One more entry in the pass.
    skip :
        (e : FilePath × Node) (l xs : Entries)
        → ((ys : Entries) → lookup q (pruned l ys) ≡ none)
        → lookup q (pruned (e ∷ l) xs) ≡ none
    unfolding pruned
    skip e l xs rest = by_index (archive_index base e)
      where
        by_index :
            (o : Option ℕ)
            → lookup q (elim o [
              | none ↦ pruned l xs
              | some n ↦ if ltb n lowest then pruned l (erase e.0 xs) else pruned l xs
            ])
              ≡ none
        by_index none = rest xs
        by_index (some n) = by_test (ltb n lowest)
          where
            by_test :
                (t : Bool) → lookup q (if t then pruned l (erase e.0 xs) else pruned l xs) ≡ none
            by_test true = rest (erase e.0 xs)
            by_test false = rest xs

    hit :
        (e : FilePath × Node) (l xs : Entries) (n : ℕ)
        → same_file e.0 q ≡ true
        → archive_index base e ≡ some n
        → n < lowest
        → lookup q (pruned (e ∷ l) xs) ≡ none
    unfolding pruned
    hit e l xs n same index low =
        let test : ltb n lowest ≡ true = ground (arith, low) in
        rw (index, pruned)
          (rw test (still_absent l (erase e.0 xs) (lookup-erase e.0 q xs ∙ if_true _ same)))

    -- An archive below the limit that stands in the directory is gone.
    pub gone :
        (dir : Bytes) (n : ℕ) (s : Bytes) (es xs : Entries)
        → parsed q ≡ some n
        → n < lowest
        → directory q.parent_path ≡ directory dir
        → lookup q es ≡ some (regular s)
        → lookup q (pruned (listing dir es) xs) ≡ none
    unfolding lookup listing
    gone dir n s [] xs name low in_dir at = ground (arith, at)
    gone dir n s ((p, node) ∷ es) xs name low in_dir at =
        by_file (same_file p q) refl at (λ found ys. gone dir n s es ys name low in_dir found)
      where
        is_node : some node ≡ some (regular s) → node ≡ regular s
        is_node h = ground (arith, h)

        elsewhere :
            (t : Bool)
            → ((ys : Entries) → lookup q (pruned (listing dir es) ys) ≡ none)
            → lookup q (pruned (if t then (p, node) ∷ listing dir es else listing dir es) xs) ≡ none
        elsewhere true rest = skip (p, node) (listing dir es) xs rest
        elsewhere false rest = rest xs

        by_file :
            (t : Bool)
            → same_file p q ≡ t
            → (if t then some node else lookup q es) ≡ some (regular s)
            → (lookup q es ≡ some (regular s)
                → (ys : Entries) → lookup q (pruned (listing dir es) ys) ≡ none)
            → lookup q (
                pruned
                  (if eq_bytes (directory p.parent_path) (directory dir)
                    then (p, node) ∷ listing dir es
                    else listing dir es)
                  xs)
              ≡ none
        by_file true e found rest =
            let same_key = (same_file_iff p q).0 e in
            let listed =
              (eq_bytes_iff (directory p.parent_path) (directory dir)).1
                (ap (λ z. z.0) same_key ∙ in_dir) in
            rw listed (
              hit (p, node) (listing dir es) xs n e
                (index_here p node s n same_key (is_node found) name) low)
        by_file false e found rest =
            elsewhere (eq_bytes (directory p.parent_path) (directory dir)) (rest found)
