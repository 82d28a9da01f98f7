-- ===== src/Level.antt =====
-- The severity levels and their tags (include/spdlite/common.h).
pub mod Order
use spdlite.Base.{ℕ, suc, Bytes, codes, List, [], ◌∷◌, none, some, Bool, leb, get_elem?}
use spdlite.Base.Exec.{Result, ok, fail, aborted}

-- `enum class level`; `n_levels` is the sentinel behind the levels.
pub data Level : Type 0 where
  trace debug info warn err critical off n_levels : Level

-- `static_cast<std::uint8_t>(lvl)`
abbrev pub to_uint8 : Level → ℕ
to_uint8 trace = 0
to_uint8 debug = 1
to_uint8 info = 2
to_uint8 warn = 3
to_uint8 err = 4
to_uint8 critical = 5
to_uint8 off = 6
to_uint8 n_levels = 7

abbrev pub levels_count : ℕ
levels_count = to_uint8 n_levels

abbrev pub level_width : ℕ
level_width = 3

abbrev pub level_names : List Bytes
level_names =
    codes "TRC"
    ∷ codes "DBG"
    ∷ codes "INF"
    ∷ codes "WRN"
    ∷ codes "ERR"
    ∷ codes "CRT"
    ∷ codes "OFF"
    ∷ []

-- The assertion `lvl < levels_count` is the bounds check of the array.
unfoldable pub to_string_view : Level → Result Bytes
to_string_view lvl = elim (get_elem? level_names (to_uint8 lvl)) [
  | none ↦ fail aborted
  | some tag ↦ ok tag
]

-- `a >= b` on levels
abbrev pub at_least : Level → Level → Bool
at_least a b = leb (to_uint8 b) (to_uint8 a)
