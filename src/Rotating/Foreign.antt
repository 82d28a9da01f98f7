-- ===== src/Rotating/Foreign.antt =====
-- Files that are not a rotating sink's own (include/spdlite/sinks/rotating_file_sink.h).
use spdlite.Base.{
  ℕ, ◌+◌, ◌-◌, ◌<◌, ◌≡◌, ◌≢◌, refl, sym, ap, ◌∙◌, arith, [], Bytes, Bool, true, false, Option, none,
  some, ltb, Bool-cases, inl, inr, if◌then◌else◌, if_false, ltb→lt,
}
use spdlite.Disk.{FilePath, Node, regular, Entries, same_file, lookup, erase, put}
use spdlite.Disk.Laws.{lookup-put, lookup-erase, same_file_iff}
use spdlite.Rotating.{RotatingFileSink, archive_path_}
use spdlite.Rotating.Names.{max_idx, parse_archive_index_, stem, extension}
use spdlite.Rotating.Names.RoundTrip.{parse-archive_name}
use spdlite.Rotating.Steps.{renamed, dropped, rotated}

-- Neither the active file nor an archive, by its name.
abbrev pub IsForeign : FilePath → FilePath → Type 0
IsForeign base q =
    (same_file base q ≡ false)
    × (parse_archive_index_ q.filename (stem base.filename) (extension base.filename) ≡ none)

module _ (base : FilePath) (named : base.filename ≢ []) (q : FilePath)
    (foreign : IsForeign base q) where
  pub foreign-archive :
      (n : ℕ) → (0 < n) × (n < max_idx) → same_file (archive_path_ base n) q ≡ false
  unfolding archive_path_
  foreign-archive n hn = elim (Bool-cases (same_file (archive_path_ base n) q)) [
    | inl same ↦
        (let name = ap (λ k. k.1) ((same_file_iff (archive_path_ base n) q).0 same) in
          let read = parse-archive_name base.filename n named hn.0 hn.1 in
          let reads : Bytes → Option ℕ =
            λ f. parse_archive_index_ f (stem base.filename) (extension base.filename) in
          absurd (some_none (sym read ∙ ap reads name ∙ foreign.1)))
    | inr different ↦ different
  ]
    where
      some_none : some n ≡ none → ⊥
      some_none h = cc h

  pub foreign-put : (n : Node) (es : Entries) → lookup q (put base n es) ≡ lookup q es
  foreign-put n es = lookup-put base q n es ∙ if_false _ foreign.0

  foreign-erase :
      (n : ℕ) (es : Entries)
      → (0 < n) × (n < max_idx)
      → lookup q (erase (archive_path_ base n) es) ≡ lookup q es
  foreign-erase n es hn =
      lookup-erase (archive_path_ base n) q es ∙ if_false _ (foreign-archive n hn)

  foreign-renamed :
      (k : ℕ) (node : Node) (es : Entries)
      → (0 < k) × (k < max_idx)
      → lookup q (renamed base k node es) ≡ lookup q es
  foreign-renamed k node es hk =
      lookup-put (archive_path_ base k) q node (erase base (erase (archive_path_ base k) es))
      ∙ if_false _ (foreign-archive k hk)
      ∙ lookup-erase base q (erase (archive_path_ base k) es)
      ∙ if_false _ foreign.0
      ∙ foreign-erase k es hk

  foreign-dropped :
      (max next : ℕ) (es : Entries)
      → next < max_idx
      → lookup q (dropped base max next es) ≡ lookup q es
  foreign-dropped max next es lt = by_test (ltb (max + 1) next) refl
    where
      oldest : FilePath
      oldest = archive_path_ base (next - max - 1)

      by_test :
          (t : Bool)
          → ltb (max + 1) next ≡ t
          → lookup q (if t then erase oldest es else es) ≡ lookup q es
      by_test true e =
          let past = ltb→lt (max + 1) next e in
          foreign-erase (next - max - 1) es (omega (arith, past), omega (arith, past, lt))
      by_test false e = refl

pub foreign-rotated :
    (r : RotatingFileSink) (old : Bytes) (es : Entries) (q : FilePath)
    → r.base_filename.filename ≢ []
    → (0 < r.next_index) × (r.next_index + 1 < max_idx)
    → IsForeign r.base_filename q
    → lookup q (rotated r old es) ≡ lookup q es
foreign-rotated r old es q named given foreign =
    let b = r.base_filename in
    foreign-dropped b named q foreign r.max_files (r.next_index + 1)
      (renamed b r.next_index (regular old) es) given.1
    ∙ foreign-renamed b named q foreign r.next_index (regular old) es
        (given.0, omega (arith, given))
