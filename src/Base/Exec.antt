-- ===== src/Base/Exec.antt =====
-- Code that changes a state and may end early. What was written before an exception stays
-- written, so the state comes back beside the failure.
use mathlib.Core.List.{List}
use Prim.Native.Nat.{ℕ}

-- `std_exception what` and `other_exception` are thrown; `aborted` is a failed assertion and
-- `terminated` is `std::terminate`, and no handler catches these two.
pub data Failure : Type 0 where
  std_exception : List ℕ → Failure
  other_exception : Failure
  aborted : Failure
  terminated : Failure

pub data Result {ℓ} (A : Type ℓ) : Type ℓ where
  ok : A → Result A
  fail : Failure → Result A

abbrev pub Exec : Type 0 → Type 0 → Type 0
Exec S A = S → Result A × S

abbrev pub Done : Type 0
Done = Unit {0}

abbrev pub pure : {S A : Type 0} → A → Exec S A
pure a s = (ok a, s)

abbrev pub throw : {S A : Type 0} → Failure → Exec S A
throw e s = (fail e, s)

abbrev pub continue : {S A B : Type 0} → Result A → (A → Exec S B) → Exec S B
continue (ok a) f s = f a s
continue (fail e) f s = (fail e, s)

infixl 5 ◌>>=◌ ◌>>◌
abbrev pub ◌>>=◌ : {S A B : Type 0} → Exec S A → (A → Exec S B) → Exec S B
◌>>=◌ m f s = let (r, s') = m s in continue r f s'

abbrev pub ◌>>◌ : {S B : Type 0} → Exec S Done → Exec S B → Exec S B
m >> k = m >>= λ _. k

-- The state after the code, and whether it ended normally.
abbrev pub state_of : {S A : Type 0} → Result A × S → S
state_of p = p.1

abbrev pub result_of : {S A : Type 0} → Result A × S → Result A
result_of p = p.0

-- `try { m } catch`: `handle` runs on a thrown exception; the end of the program is not caught.
abbrev pub catch : {S : Type 0} → (Failure → Exec S Done) → Result Done → Exec S Done
catch handle (ok a) s = (ok a, s)
catch handle (fail (std_exception w)) s = handle (std_exception w) s
catch handle (fail other_exception) s = handle other_exception s
catch handle (fail aborted) s = (fail aborted, s)
catch handle (fail terminated) s = (fail terminated, s)

abbrev pub try : {S : Type 0} → Exec S Done → (Failure → Exec S Done) → Exec S Done
try m handle s = let (r, s') = m s in catch handle r s'

-- Chains of code without a state.
abbrev pub bind {ℓ κ} : {A : Type ℓ} {B : Type κ} → Result A → (A → Result B) → Result B
bind (ok a) f = f a
bind (fail e) f = fail e
