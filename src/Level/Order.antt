-- ===== src/Level/Order.antt =====
-- The tags of the levels (include/spdlite/common.h), as the documentation lists them.
use spdlite.Base.{◌≡◌, ◌≢◌, refl, Bytes, length, [], ◌∷◌}
use spdlite.Base.Exec.{ok}
use spdlite.Level.{
  Level, trace, debug, info, warn, err, critical, off, n_levels, level_width, to_string_view,
}

-- The tag of a level as the documentation lists it, apart from the table of the code.
abbrev pub tag : Level → Bytes
tag trace = b'T' ∷ b'R' ∷ b'C' ∷ []
tag debug = b'D' ∷ b'B' ∷ b'G' ∷ []
tag info = b'I' ∷ b'N' ∷ b'F' ∷ []
tag warn = b'W' ∷ b'R' ∷ b'N' ∷ []
tag err = b'E' ∷ b'R' ∷ b'R' ∷ []
tag critical = b'C' ∷ b'R' ∷ b'T' ∷ []
tag off = b'O' ∷ b'F' ∷ b'F' ∷ []
tag n_levels = []

pub to_string_view-tag : (l : Level) → l ≢ n_levels → to_string_view l ≡ ok (tag l)
unfolding to_string_view
to_string_view-tag trace _ = refl
to_string_view-tag debug _ = refl
to_string_view-tag info _ = refl
to_string_view-tag warn _ = refl
to_string_view-tag err _ = refl
to_string_view-tag critical _ = refl
to_string_view-tag off _ = refl
to_string_view-tag n_levels h = absurd (h refl)

pub length-tag : (l : Level) → l ≢ n_levels → length (tag l) ≡ level_width
length-tag trace _ = refl
length-tag debug _ = refl
length-tag info _ = refl
length-tag warn _ = refl
length-tag err _ = refl
length-tag critical _ = refl
length-tag off _ = refl
length-tag n_levels h = absurd (h refl)
