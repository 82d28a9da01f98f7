-- ===== src/Rotating/Log.antt =====
-- What a rotating sink promises, as a log with an active part and a bounded list of archives,
-- newest first.
use spdlite.Base.{
  ℕ, ◌+◌, ◌-◌, ◌<◌, ◌≤◌, ◌≡◌, ◌⊎◌, inl, inr, refl, arith, List, ◌∷◌, ◌++◌, Bytes, Bool, true, false,
  ◌&&◌, Option, none, some, ltb, ◌==◌, length, take, get_elem?, get_elem?-take, get_elem?-eq-none,
  if◌then◌else◌,
}
use spdlite.Disk.{Node, regular}

pub record RollingLog : Type 0 where
  pub active : Bytes
  pub archives : List Bytes

-- A line goes to the active part, unless that would grow past its limit: then the active part
-- becomes the newest archive, and the line starts a new one. An empty active part takes any line.
unfoldable pub roll : ℕ → ℕ → Bytes → RollingLog → RollingLog
roll max_size max_files line log =
    if ltb max_size (length log.active + length line) && ltb 0 (length log.active)
    then record { active = line; archives = take max_files (log.active ∷ log.archives) }
    else record log { active = log.active ++ line }

abbrev pub as_file : Option Bytes → Option Node
as_file none = none
as_file (some s) = some (regular s)

-- What stands under the archive index `m` when `next` is the next index to be given out.
abbrev pub archived : List Bytes → ℕ → ℕ → Option Node
archived archives next m = if ltb m next then as_file (get_elem? archives (next - 1 - m)) else none

-- The window after a rotation that gives out the index `k`.
pub archived-roll :
    (xs : List Bytes) (old : Bytes) (max k m : ℕ)
    → length xs ≤ max
    → 0 < k
    → 0 < m
    → archived (take max (old ∷ xs)) (k + 1) m ≡ (
        if ltb max k && k - max == m
        then none
        else if k == m
        then some (regular old)
        else archived xs k m)
archived-roll xs old max k m h p q =
    ground (arith, get_elem?-take max (old ∷ xs) (k + 1 - 1 - m), get_elem?-eq-none xs (k - 1 - m))

-- The window of fewer archives.
pub archived-take :
    (xs : List Bytes) (max h n : ℕ)
    → 0 < n
    → archived (take max xs) (h + 1) n ≡ (
        if ltb max h
        then if ltb n (h - max + 1) then none else archived xs (h + 1) n
        else archived xs (h + 1) n)
archived-take xs max h n p = ground (arith, get_elem?-take max xs (h + 1 - 1 - n))

pub archived_cases :
    (xs : List Bytes) (k n : ℕ)
    → (archived xs k n ≡ none) ⊎ ((s : Bytes) × (archived xs k n ≡ some (regular s)))
archived_cases xs k n = cases (ltb n k) (get_elem? xs (k - 1 - n))
  where
    cases :
        (t : Bool) (o : Option Bytes)
        → (let node : Option Node = if t then as_file o else none in
            (node ≡ none) ⊎ ((s : Bytes) × (node ≡ some (regular s))))
    cases true none = inl refl
    cases true (some s) = inr (s, refl)
    cases false o = inl refl
