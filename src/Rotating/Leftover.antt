-- ===== src/Rotating/Leftover.antt =====
-- The files that a rotating sink leaves are files that the next one can resume
-- (include/spdlite/sinks/rotating_file_sink.h).
use spdlite.Base.{
  ℕ, ◌+◌, ◌-◌, ◌<◌, ◌≤◌, ◌≡◌, ◌≢◌, refl, sym, ap, ◌∙◌, arith, List, [], ◌∷◌, Bytes, inl, inr,
  Bool-cases, true, some, ltb, IsRange, if_false,
}
use spdlite.Disk.{FilePath, Node, regular, Entries, lookup, put}
use spdlite.Disk.Laws.{lookup-put, same_file_sym}
use spdlite.Rotating.{RotatingFileSink, archive_path_}
use spdlite.Rotating.Names.{max_idx}
use spdlite.Rotating.Names.RoundTrip.{parse-archive_name}
use spdlite.Rotating.Scan.{seen}
use spdlite.Rotating.Foreign.{IsForeign, foreign-archive}
use spdlite.Rotating.Above.{
  AllBelow, put-AllBelow, foreign-OneBelow, above_highest, highest_index-below,
}
use spdlite.Rotating.Log.{RollingLog, archived}
use spdlite.Rotating.Refine.{Holds}
use spdlite.Rotating.Kept.{IsActive, highest, Kept}

-- Where there are archives, the newest one stands under the highest index.
module _ (base : FilePath) (es : Entries) (log : RollingLog) (next : ℕ) (named : base.filename ≢ [])
    (first : 0 < next) (above : AllBelow base next es)
    (active : IsActive (lookup base es) log.active) (fits : IsRange log.active)
    (window : (n : ℕ)
      → (0 < n) × (n < max_idx)
      → lookup (archive_path_ base n) es ≡ archived log.archives next n)
    (room : next < max_idx) where
  top : ℕ
  top = highest base es

  top-lt : top < next
  unfolding top
  top-lt = highest_index-below base next es 0 first above

  -- The index below the next one, if it stands for an archive.
  at_top :
      (s : Bytes)
      → 0 < next - 1
      → archived log.archives next (next - 1) ≡ some (regular s)
      → top + 1 ≡ next
  unfolding top archive_path_
  at_top s p full =
      let n = next - 1 in
      let there = window n (p, omega (arith, room)) ∙ full in
      let read = parse-archive_name base.filename n named p (omega (arith, room)) in
      let below = seen base (archive_path_ base n) s n read base.parent_path es 0 refl there in
      omega (arith, below, top-lt)

  same_window :
      (n : ℕ)
      → (0 < n) × (n < max_idx)
      → archived log.archives next n ≡ archived log.archives (top + 1) n
  same_window n hn = by_archives log.archives refl
    where
      newest :
          (x : Bytes) (xs : List Bytes) (k : ℕ)
          → 0 < k - 1
          → archived (x ∷ xs) k (k - 1) ≡ some (regular x)
      newest x xs k p =
          let zeroth : k - 1 - (k - 1) ≡ 0 = omega arith in
          let test : ltb (k - 1) k ≡ true = ground arith in rw (test, zeroth) refl

      at_index : (x : Bytes) (xs : List Bytes) → log.archives ≡ x ∷ xs → top + 1 ≡ next
      at_index x xs e = elim (Bool-cases (ltb 1 next)) [
        | inl more ↦
            let p : 0 < next - 1 = ground (arith, more) in
            at_top x p (ap (λ a. archived a next (next - 1)) e ∙ newest x xs _ p)
        | inr one ↦ let small : next ≤ 1 = ground (arith, one) in omega (arith, small, top-lt)
      ]

      no_archive : (k j : ℕ) → archived [] k n ≡ archived [] j n
      no_archive k j = ground arith

      by_archives :
          (xs : List Bytes)
          → log.archives ≡ xs
          → archived log.archives next n ≡ archived log.archives (top + 1) n
      by_archives [] e =
          ap (λ a. archived a next n) e
          ∙ no_archive next (top + 1)
          ∙ ap (λ a. archived a (top + 1) n) (sym e)
      by_archives (x ∷ xs) e = ap (λ k. archived log.archives k n) (sym (at_index x xs e))

  window-Kept : Kept base es log
  unfolding top
  window-Kept = record {
    active = active;
    fits = fits;
    window = λ n hn. window n hn ∙ same_window n hn;
  }

-- What a sink that holds a log has in its directory.
pub holds-Kept :
    (r : RotatingFileSink) (es : Entries) (log : RollingLog)
    → Holds r es log
    → r.next_index < max_idx
    → Kept r.base_filename es log
holds-Kept r es log h room =
    window-Kept r.base_filename es log r.next_index h.named h.first h.above (inl h.active) h.fits
      h.window room

-- A file of another name does not matter.
pub foreign_put-Kept :
    (base p : FilePath) (node : Node) (es : Entries) (log : RollingLog)
    → base.filename ≢ []
    → IsForeign base p
    → highest base es + 1 < max_idx
    → Kept base es log
    → Kept base (put p node es) log × (highest base (put p node es) ≤ highest base es)
foreign_put-Kept base p node es log named foreign room kept =
    let next = highest base es + 1 in
    let above =
      put-AllBelow base next p node es (foreign-OneBelow base next p node foreign)
        (above_highest base es 0 next (omega arith)) in
    let here = lookup-put p base node es ∙ if_false _ (same_file_sym base p foreign.0) in
    let below = highest_index-below base next (put p node es) 0 (omega arith) above in
    (
      window-Kept base (put p node es) log next named (omega arith) above (rw here kept.active)
          kept.fits
          (λ n hn.
            lookup-put p (archive_path_ base n) node es
            ∙ if_false _
                (same_file_sym (archive_path_ base n) p (foreign-archive base named p foreign n hn))
            ∙ kept.window n hn)
          room,
      omega (arith, below),
    )

-- What a sink over these files, which has given out at most `n` indices, leaves.
pub left-Kept :
    {base : FilePath} {log log' : RollingLog} (r : RotatingFileSink) (es : Entries) (h n : ℕ)
    → r.base_filename ≡ base
    → log ≡ log'
    → Holds r es log
    → r.next_index ≤ h + 1 + n
    → h + 1 + n < max_idx
    → Kept base es log' × (highest base es ≤ h + n)
left-Kept r es h n base_is log_is holds index room =
    let small : r.next_index < max_idx = omega (arith, index, room) in
    let below : highest r.base_filename es < r.next_index =
      highest_index-below r.base_filename r.next_index es 0 holds.first holds.above in
    (
      rw (sym base_is, sym log_is) (holds-Kept r es _ holds small),
      rw (sym base_is) (omega (arith, below, index)),
    )
