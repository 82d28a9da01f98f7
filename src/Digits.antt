-- ===== src/Digits.antt =====
-- The fixed-width digit writers and the thread id (`put2` to `put9`, `this_thread_id_log` in
-- include/spdlite/formatter.h). `dst` is a place in the header, so a writer takes the header's
-- bytes and an offset.
pub mod Decimal
use spdlite.Base.{ℕ, ◌+◌, ◌/◌, ◌%◌, ◌^◌, Bytes, set}
use spdlite.Base.Int.{ℤ, pos, ◌+ℤ◌, quot, rem, wrap, to_int}

-- `static_cast<char>('0' + d)`, as the value of its byte
abbrev pub digit_char : ℤ → ℕ
digit_char d = wrap 256 (pos b'0' +ℤ d)

unfoldable pub put2 : Bytes → ℕ → ℤ → Bytes
put2 h dst n = set (set h dst (digit_char (quot n 10))) (dst + 1) (digit_char (rem n 10))

unfoldable pub put3 : Bytes → ℕ → ℤ → Bytes
put3 h dst n =
    let h1 = set h dst (digit_char (quot n 100)) in
    let h2 = set h1 (dst + 1) (digit_char (rem (quot n 10) 10)) in
    set h2 (dst + 2) (digit_char (rem n 10))

unfoldable pub put4 : Bytes → ℕ → ℤ → Bytes
put4 h dst n =
    let h1 = set h dst (digit_char (quot n 1000)) in
    let h2 = set h1 (dst + 1) (digit_char (rem (quot n 100) 10)) in
    let h3 = set h2 (dst + 2) (digit_char (rem (quot n 10) 10)) in
    set h3 (dst + 3) (digit_char (rem n 10))

unfoldable pub put6 : Bytes → ℕ → ℕ → Bytes
put6 h dst n = put3 (put3 h dst (to_int (n / 1000))) (dst + 3) (to_int (n % 1000))

unfoldable pub put9 : Bytes → ℕ → ℕ → Bytes
put9 h dst n =
    let h1 = put3 h dst (to_int (n / 1000000)) in
    let h2 = put3 h1 (dst + 3) (to_int (n / 1000 % 1000)) in put3 h2 (dst + 6) (to_int (n % 1000))

-- `raw` is the platform's id of the thread, a `std::uint64_t`.
unfoldable pub this_thread_id_log : ℕ → ℕ
this_thread_id_log raw = raw % 1000000 % 2 ^ 32
