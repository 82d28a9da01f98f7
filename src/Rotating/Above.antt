-- ===== src/Rotating/Above.antt =====
-- Archive indices below a bound, in a directory (include/spdlite/sinks/rotating_file_sink.h).
use spdlite.Base.{
  ℕ, ◌+◌, ◌-◌, ◌<◌, ◌≤◌, ◌≡◌, ◌≢◌, refl, arith, [], ◌∷◌, Bytes, Bool, true, false, Option, none,
  some, ltb, if◌then◌else◌,
}
use spdlite.Disk.{
  FilePath, Node, regular, symlink, other, Entries, eq_bytes, same_file, erase, put, directory,
  listing,
}
use spdlite.Rotating.{RotatingFileSink, archive_path_, archive_index, highest_index}
use spdlite.Rotating.Names.{max_idx}
use spdlite.Rotating.Names.RoundTrip.{parse-archive_name}
use spdlite.Rotating.Steps.{renamed, dropped, rotated}
use spdlite.Rotating.Foreign.{IsForeign}
use spdlite.Rotating.Prune.{pruned, parse-active}
use spdlite.Rotating.Scan.{higher, highest_cons, above_start}

module _ (base : FilePath) where
  -- An entry of the sink's directory, if it is an archive, has an index below `k`.
  abbrev pub OneBelow : ℕ → FilePath × Node → Type 0
  OneBelow k e =
      eq_bytes (directory e.0.parent_path) (directory base.parent_path) ≡ true
      → (m : ℕ) → archive_index base e ≡ some m
      → m < k

  unfoldable pub AllBelow : ℕ → Entries → Type 0
  AllBelow k [] = Unit
  AllBelow k (e ∷ es) = OneBelow k e × AllBelow k es

  module _ (k : ℕ) where
    pub erase-AllBelow : (p : FilePath) (es : Entries) → AllBelow k es → AllBelow k (erase p es)
    unfolding AllBelow erase
    erase-AllBelow p [] h = h
    erase-AllBelow p ((q, m) ∷ es) (one, rest) = by_test (same_file q p) (erase-AllBelow p es rest)
      where
        by_test :
            (t : Bool)
            → AllBelow k (erase p es)
            → AllBelow k (if t then erase p es else (q, m) ∷ erase p es)
        by_test true r = r
        by_test false r = (one, r)

    pub put-AllBelow :
        (p : FilePath) (n : Node) (es : Entries)
        → OneBelow k (p, n)
        → AllBelow k es
        → AllBelow k (put p n es)
    unfolding AllBelow put
    put-AllBelow p n [] new h = (new, tt)
    put-AllBelow p n ((q, m) ∷ es) new (one, rest) =
        by_test (same_file q p) (put-AllBelow p n es new rest)
      where
        by_test :
            (t : Bool)
            → AllBelow k (put p n es)
            → AllBelow k (if t then (p, n) ∷ erase p es else (q, m) ∷ put p n es)
        by_test true r = (new, erase-AllBelow p es rest)
        by_test false r = (one, r)

    pub pruned-AllBelow :
        (lowest : ℕ) (l es : Entries) → AllBelow k es → AllBelow k (pruned base lowest l es)
    unfolding pruned
    pruned-AllBelow lowest [] es h = h
    pruned-AllBelow lowest (e ∷ l) es h =
        by_index (archive_index base e) (λ xs. pruned-AllBelow lowest l xs)
      where
        by_index :
            (o : Option ℕ)
            → ((xs : Entries) → AllBelow k xs → AllBelow k (pruned base lowest l xs))
            → AllBelow k (elim o [
              | none ↦ pruned base lowest l es
              | some n ↦
                  if ltb n lowest
                  then pruned base lowest l (erase e.0 es)
                  else pruned base lowest l es
            ])
        by_index none rest = rest es h
        by_index (some n) rest = by_test (ltb n lowest)
          where
            by_test :
                (t : Bool)
                → AllBelow k
                    (if t then pruned base lowest l (erase e.0 es) else pruned base lowest l es)
            by_test true = rest (erase e.0 es) (erase-AllBelow e.0 es h)
            by_test false = rest es h

    pub active-OneBelow : (s : Bytes) → OneBelow k (base, regular s)
    unfolding archive_index
    active-OneBelow s listed m e = absurd (cc (e, parse-active base.filename))

    pub foreign-OneBelow : (p : FilePath) (n : Node) → IsForeign base p → OneBelow k (p, n)
    unfolding archive_index
    foreign-OneBelow p (regular s) foreign listed m e = absurd (cc (e, foreign.1))
    foreign-OneBelow p symlink foreign listed m e = absurd (cc e)
    foreign-OneBelow p other foreign listed m e = absurd (cc e)

    pub weaken-AllBelow : (j : ℕ) (es : Entries) → k ≤ j → AllBelow k es → AllBelow j es
    unfolding AllBelow
    weaken-AllBelow j [] le h = h
    weaken-AllBelow j (e ∷ es) le (one, rest) =
        (λ listed m index. omega (arith, le, one listed m index), weaken-AllBelow j es le rest)

    pub archive-OneBelow :
        (n : ℕ) (s : Bytes)
        → base.filename ≢ []
        → (0 < n) × (n < max_idx)
        → n < k
        → OneBelow k (archive_path_ base n, regular s)
    unfolding archive_index archive_path_
    archive-OneBelow n s named hn lt listed m e =
        let own = parse-archive_name base.filename n named hn.0 hn.1 in ground (arith, own, e, lt)

    higher-lt : (h : ℕ) (o : Option ℕ) → h < k → ((m : ℕ) → o ≡ some m → m < k) → higher h o < k
    higher-lt h none lt all = lt
    higher-lt h (some n) lt all = let small = all n refl in ground (arith, lt, small)

    -- The scan finds no index at `k` or above.
    pub highest_index-below :
        (es : Entries) (h : ℕ)
        → h < k
        → AllBelow k es
        → highest_index base (listing base.parent_path es) h < k
    unfolding AllBelow listing highest_index
    highest_index-below [] h lt all = lt
    highest_index-below ((p, n) ∷ es) h lt (one, rest) =
        by_test (eq_bytes (directory p.parent_path) (directory base.parent_path)) refl
          (λ j. highest_index-below es j)
      where
        by_test :
            (t : Bool)
            → eq_bytes (directory p.parent_path) (directory base.parent_path) ≡ t
            → ((j : ℕ)
                → j < k
                → AllBelow k es
                → highest_index base (listing base.parent_path es) j < k)
            → highest_index base
                (if t then (p, n) ∷ listing base.parent_path es else listing base.parent_path es)
                h
              < k
        by_test true listed tail = rw (highest_cons base (p, n) (listing base.parent_path es) h) (
            tail (higher h (archive_index base (p, n)))
              (higher-lt h (archive_index base (p, n)) lt (one listed)) rest)
        by_test false listed tail = tail h lt rest

  -- Every archive is below the index behind the highest one.
  pub above_highest :
      (es : Entries) (h k : ℕ)
      → highest_index base (listing base.parent_path es) h < k
      → AllBelow k es
  unfolding AllBelow listing highest_index
  above_highest [] h k lt = tt
  above_highest ((p, n) ∷ es) h k lt =
      by_test (eq_bytes (directory p.parent_path) (directory base.parent_path)) refl
        (λ j. above_highest es j k) lt
    where
      at_top : (o : Option ℕ) (m : ℕ) → higher h o < k → o ≡ some m → m < k
      at_top none m top e = ground (arith, e)
      at_top (some i) m top e = ground (arith, e, top)

      by_test :
          (t : Bool)
          → eq_bytes (directory p.parent_path) (directory base.parent_path) ≡ t
          → ((j : ℕ) → highest_index base (listing base.parent_path es) j < k → AllBelow k es)
          → highest_index base
              (if t then (p, n) ∷ listing base.parent_path es else listing base.parent_path es)
              h
            < k
          → OneBelow k (p, n) × AllBelow k es
      by_test true e tail top =
          let j = higher h (archive_index base (p, n)) in
          let split = highest_cons base (p, n) (listing base.parent_path es) h in
          (
            λ listed m index.
                at_top (archive_index base (p, n)) m
                  (omega (arith, split, top, above_start base (listing base.parent_path es) j))
                  index,
            tail j (omega (arith, split, top)),
          )
      by_test false e tail top = (λ listed. absurd (cc (listed, e)), tail h top)

dropped-AllBelow :
    (base : FilePath) (k max next : ℕ) (es : Entries)
    → AllBelow base k es
    → AllBelow base k (dropped base max next es)
dropped-AllBelow base k max next es h = by_test (ltb (max + 1) next)
  where
    oldest : FilePath
    oldest = archive_path_ base (next - max - 1)

    by_test : (t : Bool) → AllBelow base k (if t then erase oldest es else es)
    by_test true = erase-AllBelow base k oldest es h
    by_test false = h

-- A rotation gives out the index below the next one.
pub rotated-AllBelow :
    (r : RotatingFileSink) (old : Bytes) (es : Entries)
    → r.base_filename.filename ≢ []
    → (0 < r.next_index) × (r.next_index < max_idx)
    → AllBelow r.base_filename (r.next_index + 1) es
    → AllBelow r.base_filename (r.next_index + 1) (rotated r old es)
rotated-AllBelow r old es named given h =
    let k = r.next_index + 1 in
    let archive = archive_path_ r.base_filename r.next_index in
    let without = erase-AllBelow r.base_filename k archive es h in
    let moved = erase-AllBelow r.base_filename k r.base_filename (erase archive es) without in
    let new : OneBelow r.base_filename k (archive, regular old) =
      archive-OneBelow r.base_filename k r.next_index old named given (omega arith) in
    dropped-AllBelow r.base_filename k r.max_files k
      (renamed r.base_filename r.next_index (regular old) es)
      (put-AllBelow r.base_filename k archive (regular old)
        (erase r.base_filename (erase archive es)) new moved)
