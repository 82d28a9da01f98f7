-- ===== src/Rotating/Scan.antt =====
-- The scan for archives (`scan_and_prune_archives_` in
-- include/spdlite/sinks/rotating_file_sink.h) and the highest index.
use spdlite.Base.{
  ℕ, ◌+◌, ◌-◌, ◌*◌, ◌%◌, ◌^◌, ◌≤◌, ◌<◌, ◌≡◌, refl, ap, ◌∙◌, arith, [], ◌∷◌, Bytes, Bool, true,
  false, ◌&&◌, not, Option, none, some, ltb, ◌==◌, if◌then◌else◌,
}
use spdlite.Disk.{
  FilePath, Node, regular, symlink, other, Entries, eq_bytes, directory, same_file, lookup, listing,
}
use spdlite.Disk.Laws.{eq_bytes_iff, same_file_iff, key}
use spdlite.Rotating.{archive_index, highest_index}
use spdlite.Rotating.Names.{
  scan_digits, accept_index, parse_digits, max_idx, parse_archive_index_, stem, extension,
}

-- The running maximum after one more entry.
abbrev pub higher : ℕ → Option ℕ → ℕ
higher h none = h
higher h (some n) = if ltb h n then n else h

pub higher_le : (h : ℕ) (o : Option ℕ) → h ≤ higher h o
higher_le h none = omega arith
higher_le h (some n) = ground arith

pub highest_cons :
    (base : FilePath) (e : FilePath × Node) (es : Entries) (h : ℕ)
    → highest_index base (e ∷ es) h ≡ highest_index base es (higher h (archive_index base e))
unfolding highest_index
highest_cons base e es h = by_index (archive_index base e)
  where
    by_index :
        (o : Option ℕ)
        → highest_index base es (elim o [ none ↦ h | some n ↦ if ltb h n then n else h ])
          ≡ highest_index base es (higher h o)
    by_index none = refl
    by_index (some n) = refl

pub above_start : (base : FilePath) (es : Entries) (h : ℕ) → h ≤ highest_index base es h
unfolding highest_index
above_start base [] h = omega arith
above_start base (e ∷ es) h = omega (
  arith,
  highest_cons base e es h,
  higher_le h (archive_index base e),
  above_start base es (higher h (archive_index base e)),
)

unwrap : {a b : Node} → some a ≡ some b → a ≡ b
unwrap h = ground arith

module _ (base : FilePath) (p : FilePath) (s : Bytes) (n : ℕ)
    (index : parse_archive_index_ p.filename (stem base.filename) (extension base.filename)
      ≡ some n) where
  here :
      (q : FilePath) (node : Node) (es : Entries) (h : ℕ)
      → key q ≡ key p
      → some node ≡ some (regular s)
      → n ≤ highest_index base ((q, node) ∷ es) h
  unfolding archive_index
  here q node es h e same_node =
      rw (highest_cons base (q, node) es h, found)
        (omega (arith, above_start base es (higher h (some n)), top))
    where
      node_is : node ≡ regular s
      node_is = unwrap same_node

      found : archive_index base (q, node) ≡ some n
      found = rw node_is (
          ap (λ f. parse_archive_index_ f (stem base.filename) (extension base.filename))
            (ap (λ k. k.1) e)
          ∙ index)

      top : n ≤ higher h (some n)
      top = ground arith

  elsewhere :
      (dir : Bytes) (q : FilePath) (node : Node) (es : Entries) (h : ℕ)
      → ((k : ℕ) → n ≤ highest_index base (listing dir es) k)
      → (listed : Bool)
      → n ≤ highest_index base (if listed then (q, node) ∷ listing dir es else listing dir es) h
  elsewhere dir q node es h rest true = rw (highest_cons base (q, node) (listing dir es) h) (rest _)
  elsewhere dir q node es h rest false = rest h

  by_path :
      (dir : Bytes) (q : FilePath) (node : Node) (es : Entries) (h : ℕ)
      → directory p.parent_path ≡ directory dir
      → (t : Bool) → same_file q p ≡ t
      → (if t then some node else lookup p es) ≡ some (regular s)
      → (lookup p es ≡ some (regular s) → (k : ℕ) → n ≤ highest_index base (listing dir es) k)
      → n
        ≤ highest_index base
            (if eq_bytes (directory q.parent_path) (directory dir)
              then (q, node) ∷ listing dir es
              else listing dir es)
            h
  by_path dir q node es h same true e at rest =
      let k = (same_file_iff q p).0 e in
      let listed =
        (eq_bytes_iff (directory q.parent_path) (directory dir)).1 (ap (λ x. x.0) k ∙ same) in
      rw listed (here q node (listing dir es) h k at)
  by_path dir q node es h same false e at rest =
      elsewhere dir q node es h (rest at) (eq_bytes (directory q.parent_path) (directory dir))

  -- A file that is listed is seen.
  pub seen :
      (dir : Bytes) (es : Entries) (h : ℕ)
      → directory p.parent_path ≡ directory dir
      → lookup p es ≡ some (regular s)
      → n ≤ highest_index base (listing dir es) h
  unfolding lookup listing
  seen dir [] h same at = ground arith
  seen dir ((q, node) ∷ es) h same at =
      by_path dir q node es h same (same_file q p) refl at (λ found k. seen dir es k same found)

-- An index that is read is below SIZE_MAX.
scan_digits-lt :
    (t : Bytes) (value n : ℕ) → value < 2 ^ 64 → scan_digits t value ≡ some n → n < 2 ^ 64
unfolding scan_digits
scan_digits-lt [] value n lt e = ground (arith, e, lt)
scan_digits-lt (c ∷ t) value n lt e =
    ground (arith, scan_digits-lt t ((value * 10 + (c - b'0')) % 2 ^ 64) n)

accept_index-lt :
    (o : Option ℕ) (n : ℕ)
    → ((m : ℕ) → o ≡ some m → m < 2 ^ 64)
    → accept_index o ≡ some n
    → n < max_idx
accept_index-lt none n bound e = ground arith
accept_index-lt (some m) n bound e = let lt = bound m refl in ground (arith, lt, e)

parse_digits-lt : (t : Bytes) (n : ℕ) → parse_digits t ≡ some n → n < max_idx
parse_digits-lt [] n e = ground arith
parse_digits-lt (c ∷ []) n e = ground arith
parse_digits-lt (c ∷ d ∷ t) n e = by_test (c == b'.') e
  where
    by_test :
        (b : Bool)
        → (if b then accept_index (scan_digits (d ∷ t) 0) else none) ≡ some n
        → n < max_idx
    by_test true h =
        accept_index-lt (scan_digits (d ∷ t) 0) n (λ m. scan_digits-lt (d ∷ t) 0 m (omega arith)) h
    by_test false h = ground arith

parse_archive_index_-lt :
    (f st ext : Bytes) (n : ℕ) → parse_archive_index_ f st ext ≡ some n → n < max_idx
unfolding parse_archive_index_
parse_archive_index_-lt f st ext n e =
    by_tests (not (eq_bytes ext []) && not (eq_bytes (extension f) ext))
      (not (eq_bytes (stem (if eq_bytes ext [] then f else stem f)) st))
      (extension (if eq_bytes ext [] then f else stem f)) e
  where
    by_tests :
        (a b : Bool) (digits : Bytes)
        → (if a then none else if b then none else parse_digits digits) ≡ some n
        → n < max_idx
    by_tests true b digits h = ground arith
    by_tests false true digits h = ground arith
    by_tests false false digits h = parse_digits-lt digits n h

archive_index-lt :
    (base : FilePath) (e : FilePath × Node) (n : ℕ) → archive_index base e ≡ some n → n < max_idx
unfolding archive_index
archive_index-lt base (q, regular s) n h =
    parse_archive_index_-lt q.filename (stem base.filename) (extension base.filename) n h
archive_index-lt base (q, symlink) n h = ground arith
archive_index-lt base (q, other) n h = ground arith

higher-lt :
    (h : ℕ) (o : Option ℕ)
    → h < max_idx
    → ((n : ℕ) → o ≡ some n → n < max_idx)
    → higher h o < max_idx
higher-lt h none lt all = lt
higher-lt h (some n) lt all = let small = all n refl in ground (arith, lt, small)

pub highest_index-lt :
    (base : FilePath) (es : Entries) (h : ℕ) → h < max_idx → highest_index base es h < max_idx
unfolding highest_index
highest_index-lt base [] h lt = lt
highest_index-lt base (e ∷ es) h lt =
    let rest =
      highest_index-lt base es (higher h (archive_index base e))
        (higher-lt h (archive_index base e) lt (archive_index-lt base e)) in
    omega (arith, highest_cons base e es h, rest)
