-- ===== src/Rotating/Names/Cutting.antt =====
-- How `stem()` and `extension()` of the standard library cut a name.
use spdlite.Base.{
  ◌≤◌, ◌≡◌, ◌≢◌, ◌⊎◌, inl, inr, refl, ap, arith, [], ◌∷◌, ◌++◌, append-nil, Bytes, Bool, true,
  false, Option, none, some, ◌==◌, length, if◌then◌else◌,
}
use spdlite.Rotating.Names.{
  Cut, last_period, cons_before, is_dots, split_name, cut_name, stem, extension,
}

abbrev pub NoPeriod : Bytes → Type 0
NoPeriod [] = Unit {0}
NoPeriod (c ∷ s) = (c ≢ b'.') × NoPeriod s

pub last_period-none : (s : Bytes) → NoPeriod s → last_period s ≡ none
unfolding last_period
last_period-none [] h = refl
last_period-none (c ∷ s) h = ground (arith, last_period-none s h.1)

pub last_period-append :
    (s d : Bytes)
    → NoPeriod d
    → last_period (s ++ b'.' ∷ d) ≡ some (record { before = s; after = b'.' ∷ d })
unfolding last_period
last_period-append [] d h = rw (last_period-none d h)
last_period-append (c ∷ s) d h = rw (last_period-append s d h)

pub long_is_no_dots : (s : Bytes) → 3 ≤ length s → is_dots s ≡ false
long_is_no_dots [] h = absurd (omega arith)
long_is_no_dots (a ∷ []) h = absurd (omega arith)
long_is_no_dots (a ∷ b ∷ []) h = absurd (omega arith)
long_is_no_dots (a ∷ b ∷ c ∷ s) h = ground arith

pub cut_name-append :
    (s d : Bytes)
    → s ≢ []
    → NoPeriod d
    → 3 ≤ length (s ++ b'.' ∷ d)
    → cut_name (s ++ b'.' ∷ d) ≡ record { before = s; after = b'.' ∷ d }
unfolding cut_name
cut_name-append [] d ne h long = absurd (ne refl)
cut_name-append (c ∷ s) d ne h long =
    rw (long_is_no_dots (c ∷ s ++ b'.' ∷ d) long, last_period-append (c ∷ s) d h)

pub stem-append :
    (s d : Bytes) → s ≢ [] → NoPeriod d → 3 ≤ length (s ++ b'.' ∷ d) → stem (s ++ b'.' ∷ d) ≡ s
stem-append s d ne h long = ap (λ k. k.before) (cut_name-append s d ne h long)

pub extension-append :
    (s d : Bytes)
    → s ≢ []
    → NoPeriod d
    → 3 ≤ length (s ++ b'.' ∷ d)
    → extension (s ++ b'.' ∷ d) ≡ b'.' ∷ d
extension-append s d ne h long = ap (λ k. k.after) (cut_name-append s d ne h long)

-- An extension is empty, or a period with none behind it.
abbrev pub IsExtension : Bytes → Type 0
IsExtension s = (s ≡ []) ⊎ ((e : Bytes) × (s ≡ b'.' ∷ e) × NoPeriod e)

-- What `last_period` finds.
pub Shape : Bytes → Option Cut → Type 0
Shape s none = NoPeriod s
Shape s (some k) = (k.before ++ k.after ≡ s) × ((e : Bytes) × (k.after ≡ b'.' ∷ e) × NoPeriod e)

pub last_period-Shape : (s : Bytes) → Shape s (last_period s)
unfolding last_period Shape
last_period-Shape [] = tt
last_period-Shape (c ∷ s) = step (last_period s) (last_period-Shape s)
  where
    at_front :
        (b : Bool)
        → (c == b'.') ≡ b
        → NoPeriod s
        → Shape (c ∷ s) (if b then some (record { before = []; after = c ∷ s }) else none)
    at_front true e h = (refl, (s, ground arith, h))
    at_front false e h = (ground arith, h)

    step :
        (o : Option Cut)
        → Shape s o
        → Shape (c ∷ s) (elim o [
          | some k ↦ some (cons_before c k)
          | none ↦ if c == b'.' then some (record { before = []; after = c ∷ s }) else none
        ])
    step none h = at_front (c == b'.') refl h
    step (some k) (e, rest) = (ap (λ r. c ∷ r) e, rest)

abbrev pub Parts : Bytes → Cut → Type 0
Parts s k = (k.before ++ k.after ≡ s) × IsExtension k.after × (s ≢ [] → k.before ≢ [])

pub whole : (s : Bytes) → Parts s (record { before = s; after = [] })
whole s = (append-nil s, inl refl, λ ne. ne)

pub split-Shape : (s : Bytes) (o : Option Cut) → Shape s o → Parts s (split_name s o)
unfolding Shape
split-Shape s none h = whole s
split-Shape s (some k) h = cut (k.before) refl
  where
    cut :
        (b : Bytes)
        → k.before ≡ b
        → Parts s (elim b [ [] ↦ record { before = s; after = [] } | (c ∷ r) ↦ k ])
    cut [] e = whole s
    cut (c ∷ r) e = (h.0, inr h.1, λ _ e'. cc (e, e'))

pub cut_name-shape : (s : Bytes) → Parts s (cut_name s)
unfolding cut_name
cut_name-shape s = by_dots (is_dots s)
  where
    by_dots :
        (b : Bool)
        → Parts s (if b then record { before = s; after = [] } else split_name s (last_period s))
    by_dots true = whole s
    by_dots false = split-Shape s (last_period s) (last_period-Shape s)
