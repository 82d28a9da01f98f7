-- ===== src/Buffer/StackBuf/Refine.antt =====
-- The stack buffer (include/spdlite/common.h) as a `MemoryBuf`, and against a plain byte string.
use spdlite.Base.{ℕ, ◌≡◌, refl, List, [], ◌∷◌, ◌++◌, Bytes, IsRange, length, arith}
use spdlite.Buffer.{MemoryBuf, IsLawful}
use spdlite.Buffer.StackBuf
use spdlite.Buffer.StackBuf.{StackBuf, stack_size}
use spdlite.Buffer.StackBuf.Laws
use spdlite.Buffer.StackBuf.Laws.{IsValid}

abbrev pub stack_buf : Bytes → MemoryBuf
stack_buf left = record {
  State = StackBuf;
  fresh = StackBuf.fresh;
  clear = StackBuf.clear;
  push_back = StackBuf.push_back;
  append = StackBuf.append;
  contents = StackBuf.contents;
  move = StackBuf.move left;
}

clear-IsValid : (b : StackBuf) → IsValid b → IsValid (StackBuf.clear b)
unfolding StackBuf.clear
clear-IsValid b v = omega arith

contents-clear : (b : StackBuf) → StackBuf.contents (StackBuf.clear b) ≡ []
unfolding StackBuf.contents StackBuf.clear
contents-clear b = refl

fresh-IsValid : IsValid StackBuf.fresh
fresh-IsValid = omega arith

contents-fresh : StackBuf.contents StackBuf.fresh ≡ []
unfolding StackBuf.contents
contents-fresh = refl

-- stack_buf meets the laws that the formatter, the logger and the colour sink use of a line buffer,
-- whatever a move leaves in the old string.
pub stack_buf-IsLawful : (left : Bytes) → IsLawful (stack_buf left)
stack_buf-IsLawful left = record {
  IsValid = IsValid;
  fresh-IsValid = fresh-IsValid;
  clear-IsValid = clear-IsValid;
  push_back-IsValid = Laws.push_back-IsValid;
  append-IsValid = λ b s _ v. Laws.append-IsValid b s v;
  contents-fresh = contents-fresh;
  contents-clear = λ b _. contents-clear b;
  contents-push_back = Laws.contents-push_back;
  contents-append = Laws.contents-append;
  move-IsValid = Laws.move-IsValid left;
  contents-move = λ b v. (Laws.contents-move left b v).0;
}

-- Calls of the operations in some order.
pub data Op : Type 0 where
  push_back : ℕ → Op
  append : Bytes → Op
  clear : Op
  move : Bytes → Op

abbrev pub Fits : List Op → Type 0
Fits [] = Unit {0}
Fits (append s ∷ ops) = IsRange s × Fits ops
Fits (_ ∷ ops) = Fits ops

-- A moved buffer is used under its new name.
pub run : List Op → StackBuf → StackBuf
run [] b = b
run (push_back c ∷ ops) b = run ops (StackBuf.push_back b c)
run (append s ∷ ops) b = run ops (StackBuf.append b s)
run (clear ∷ ops) b = run ops (StackBuf.clear b)
run (move left ∷ ops) b = run ops (StackBuf.move left b).0

pub replay : List Op → Bytes → Bytes
replay [] t = t
replay (push_back c ∷ ops) t = replay ops (t ++ c ∷ [])
replay (append s ∷ ops) t = replay ops (t ++ s)
replay (clear ∷ ops) t = replay ops []
replay (move left ∷ ops) t = replay ops t

-- After any sequence of push_back, append, clear and moves a valid stack buffer shows the bytes and
-- the size that a plain byte string would have, wherever it spilled to the heap. Each appended
-- range is shorter than 2^63 bytes.
pub run-refines :
    (ops : List Op) (b : StackBuf)
    → Fits ops
    → IsValid b
    → (StackBuf.contents (run ops b) ≡ replay ops (StackBuf.contents b))
      × (StackBuf.size (run ops b) ≡ length (replay ops (StackBuf.contents b)))
unfolding run replay
run-refines [] b f v = (refl, Laws.size-contents b v)
run-refines (push_back c ∷ ops) b f v =
    rw (← Laws.contents-push_back b c v)
      (run-refines ops (StackBuf.push_back b c) f (Laws.push_back-IsValid b c v))
run-refines (append s ∷ ops) b f v =
    rw (← Laws.contents-append b s f.0 v)
      (run-refines ops (StackBuf.append b s) f.1 (Laws.append-IsValid b s v))
run-refines (clear ∷ ops) b f v =
    rw (← contents-clear b) (run-refines ops (StackBuf.clear b) f (clear-IsValid b v))
run-refines (move left ∷ ops) b f v =
    rw (← (Laws.contents-move left b v).0)
      (run-refines ops (StackBuf.move left b).0 f (Laws.move-IsValid left b v).0)
