-- ===== src/Rotating/Names/RoundTrip.antt =====
-- The name of an archive and its index (include/spdlite/sinks/rotating_file_sink.h).
use spdlite.Base.{
  ℕ, ◌≤◌, ◌<◌, ◌≡◌, ◌≢◌, inl, inr, refl, sym, ap, ◌∙◌, arith, [], ◌∷◌, ◌++◌, append-nil,
  append_assoc, Bytes, true, some, length, length-append,
}
use spdlite.Disk.{eq_bytes}
use spdlite.Disk.Laws.{eq_bytes_refl}
use spdlite.Rotating.Names.{
  stem, extension, to_string, max_idx, scan_digits, accept_index, parse_digits,
  parse_archive_index_,
}
use spdlite.Rotating.Names.Cutting.{stem-append, extension-append, IsExtension, cut_name-shape}
use spdlite.Rotating.Names.Printing.{scan-to_string, to_string-NoPeriod, some_digit}

-- The name of the archive with index `n` of the file `name`.
abbrev pub archive_name : Bytes → ℕ → Bytes
archive_name name n = stem name ++ (b'.' ∷ (to_string n ++ extension name))

length_pos : (s : Bytes) → s ≢ [] → 0 < length s
length_pos [] h = absurd (h refl)
length_pos (c ∷ s) h = omega arith

append-ne-nil : (s t : Bytes) → s ≢ [] → s ++ t ≢ []
append-ne-nil [] t h = absurd (h refl)
append-ne-nil (c ∷ s) t h = λ e. cc

-- `inner` is the stem of the active file's name, a period and the digits.
parse_inner :
    (st : Bytes) (n : ℕ)
    → st ≢ []
    → 0 < n
    → n < max_idx
    → (eq_bytes (stem (st ++ b'.' ∷ to_string n)) st ≡ true)
      × (parse_digits (extension (st ++ b'.' ∷ to_string n)) ≡ some n)
parse_inner st n ne p lt =
    rw
      (
        stem-append st (to_string n) ne (to_string-NoPeriod n) long,
        extension-append st (to_string n) ne (to_string-NoPeriod n) long,
      )
      (eq_bytes_refl st, digits (to_string n) refl)
  where
    long : 3 ≤ length (st ++ b'.' ∷ to_string n)
    long = omega (arith, length-append st (b'.' ∷ to_string n), length_pos st ne, some_digit n)

    digits : (t : Bytes) → to_string n ≡ t → parse_digits (b'.' ∷ t) ≡ some n
    digits [] e = absurd (omega (arith, ap length e, some_digit n))
    digits (c ∷ s) e =
        ap accept_index (ap (λ t. scan_digits t 0) (sym e) ∙ scan-to_string n (omega arith))
        ∙ ground arith

parse_with :
    (st ext : Bytes) (n : ℕ)
    → IsExtension ext
    → st ≢ []
    → 0 < n
    → n < max_idx
    → parse_archive_index_ (st ++ (b'.' ∷ (to_string n ++ ext))) st ext ≡ some n
unfolding parse_archive_index_
parse_with st ext n (inl e) ne p lt =
    let (same, read) = parse_inner st n ne p lt in rw (e, append-nil (to_string n), same) read
parse_with st ext n (inr (x, e, h)) ne p lt =
    let (same, read) = parse_inner st n ne p lt in
    let ne' = append-ne-nil st (b'.' ∷ to_string n) ne in
    let stem_of = stem-append (st ++ b'.' ∷ to_string n) x ne' h long in
    let ext_of = extension-append (st ++ b'.' ∷ to_string n) x ne' h long in
    rw (e, regroup, ext_of, stem_of, eq_bytes_refl (b'.' ∷ x), same) read
  where
    regroup : st ++ (b'.' ∷ (to_string n ++ b'.' ∷ x)) ≡ (st ++ b'.' ∷ to_string n) ++ b'.' ∷ x
    regroup = sym (append_assoc st (b'.' ∷ to_string n) (b'.' ∷ x))

    long : 3 ≤ length ((st ++ b'.' ∷ to_string n) ++ b'.' ∷ x)
    long =
        rw
          (
            length-append (st ++ b'.' ∷ to_string n) (b'.' ∷ x),
            length-append st (b'.' ∷ to_string n),
          )
          (omega (arith, some_digit n))

-- The name of an archive is parsed back as its index, for every non-empty name of the active file
-- and every positive index below SIZE_MAX.
pub parse-archive_name :
    (name : Bytes) (n : ℕ)
    → name ≢ []
    → 0 < n
    → n < max_idx
    → parse_archive_index_ (archive_name name n) (stem name) (extension name) ≡ some n
parse-archive_name name n ne p lt =
    let (_, ext, named) = cut_name-shape name in
    parse_with (stem name) (extension name) n ext (named ne) p lt
