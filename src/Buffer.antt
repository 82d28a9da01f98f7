-- ===== src/Buffer.antt =====
-- The growing character buffer that a line is built in (`memory_buf_t` of
-- include/spdlite/common.h): what the formatter and the logger use of it, whichever of the two
-- implementations the build selects.
pub mod StackBuf
use spdlite.Base.{ℕ, ◌≡◌, List, [], ◌∷◌, ◌++◌, Bytes, IsRange}

-- The operations. `move` is the move constructor: the new buffer, and what is left of the old.
pub record MemoryBuf : Type 1 where
  pub State : Type 0
  pub fresh : State
  pub clear : State → State
  pub push_back : State → ℕ → State
  pub append : State → Bytes → State
  pub contents : State → Bytes
  pub move : State → State × State

-- The documented behaviour: `data()` and `size()` show the bytes put in since the last `clear()`.
pub record IsLawful (B : MemoryBuf) : Type 1 where
  pub IsValid : B.State → Type 0
  pub fresh-IsValid : IsValid B.fresh
  pub clear-IsValid : (b : B.State) → IsValid b → IsValid (B.clear b)
  pub push_back-IsValid : (b : B.State) (c : ℕ) → IsValid b → IsValid (B.push_back b c)
  pub append-IsValid : (b : B.State) (s : Bytes) → IsRange s → IsValid b → IsValid (B.append b s)
  pub contents-fresh : B.contents B.fresh ≡ []
  pub contents-clear : (b : B.State) → IsValid b → B.contents (B.clear b) ≡ []
  pub contents-push_back :
      (b : B.State) (c : ℕ) → IsValid b → B.contents (B.push_back b c) ≡ B.contents b ++ (c ∷ [])
  pub contents-append :
      (b : B.State) (s : Bytes)
      → IsRange s
      → IsValid b
      → B.contents (B.append b s) ≡ B.contents b ++ s
  pub move-IsValid : (b : B.State) → IsValid b → IsValid (B.move b).0 × IsValid (B.move b).1
  pub contents-move : (b : B.State) → IsValid b → B.contents (B.move b).0 ≡ B.contents b
