-- ===== src/Rotating/Names.antt =====
-- The names of archives: `stem()` and `extension()` of the standard library, `std::to_string`, and
-- `parse_archive_index_` (include/spdlite/sinks/rotating_file_sink.h).
pub mod Cutting
pub mod Printing
pub mod RoundTrip
pub mod Distinct
use spdlite.Base.{
  ℕ, zero, suc, ◌+◌, ◌-◌, ◌*◌, ◌/◌, ◌%◌, ◌^◌, List, [], ◌∷◌, ◌++◌, Bytes, codes, Bool, true, false,
  ◌&&◌, ◌||◌, not, Option, none, some, ltb, leb, ◌==◌, length, if◌then◌else◌,
}
use spdlite.Disk.{eq_bytes}

-- A name cut before its last period.
pub record Cut : Type 0 where
  pub before : Bytes
  pub after : Bytes

abbrev pub cons_before : ℕ → Cut → Cut
cons_before c k = record k { before = c ∷ k.before }

unfoldable pub last_period : Bytes → Option Cut
last_period [] = none
last_period (c ∷ s) = elim (last_period s) [
  | some k ↦ some (cons_before c k)
  | none ↦ if c == b'.' then some (record { before = []; after = c ∷ s }) else none
]

-- "." and ".." have no extension, and a period in front starts none.
abbrev pub is_dots : Bytes → Bool
is_dots s = eq_bytes s (codes ".") || eq_bytes s (codes "..")

abbrev pub split_name : Bytes → Option Cut → Cut
split_name s none = record { before = s; after = [] }
split_name s (some k) = elim k.before [ [] ↦ record { before = s; after = [] } | (c ∷ b) ↦ k ]

unfoldable pub cut_name : Bytes → Cut
unfolding last_period
cut_name s = if is_dots s then record { before = s; after = [] } else split_name s (last_period s)

abbrev pub stem : Bytes → Bytes
stem s = (cut_name s).before

abbrev pub extension : Bytes → Bytes
extension s = (cut_name s).after

-- `std::to_string` of a `size_t`, which has twenty digits at most.
unfoldable pub emit : ℕ → ℕ → Bytes → Bytes
emit zero n out = out
emit (suc fuel) n out =
    let out' = (b'0' + n % 10) ∷ out in
    let rest = emit fuel (n / 10) out' in if ltb n 10 then out' else rest

unfoldable pub to_string : ℕ → Bytes
unfolding emit
to_string n = emit 20 n []

abbrev pub max_idx : ℕ
max_idx = 2 ^ 64 - 1

-- The loop over the digits, with the overflow guard.
unfoldable pub scan_digits : Bytes → ℕ → Option ℕ
scan_digits [] value = some value
scan_digits (c ∷ s) value =
    let digit = c - b'0' in
    if ltb c b'0' || ltb b'9' c
    then none
    else if ltb ((max_idx - digit) / 10) value
    then none
    else scan_digits s ((value * 10 + digit) % 2 ^ 64)

abbrev pub accept_index : Option ℕ → Option ℕ
accept_index none = none
accept_index (some value) = if value == 0 || value == max_idx then none else some value

-- `dot_digits` is a period with at least one character behind it.
abbrev pub parse_digits : Bytes → Option ℕ
parse_digits [] = none
parse_digits (c ∷ []) = none
parse_digits (c ∷ d ∷ s) = if c == b'.' then accept_index (scan_digits (d ∷ s) 0) else none

unfoldable pub parse_archive_index_ : Bytes → Bytes → Bytes → Option ℕ
parse_archive_index_ filepath base_stem base_ext =
    let no_ext = eq_bytes base_ext [] in
    let inner = if no_ext then filepath else stem filepath in
    if not no_ext && not (eq_bytes (extension filepath) base_ext)
    then none
    else if not (eq_bytes (stem inner) base_stem)
    then none
    else parse_digits (extension inner)
