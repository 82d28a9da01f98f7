-- ===== src/Buffer/StackBuf/Laws.antt =====
-- The invariant of the stack buffer (include/spdlite/common.h), and what its operations show.
use spdlite.Base.{
  ℕ, ◌+◌, ◌≤◌, ◌≡◌, refl, ap, sym, ◌∙◌, arith, [], ◌∷◌, ◌++◌, Bytes, set, write_at, take, length,
  IsRange, length-set, length-write_at, length-take, length-drop, drop, take-append-drop,
  write_at-part, take-append, length-append, append_assoc,
}
use spdlite.Buffer.StackBuf.{StackBuf, stack_size, fresh, push_back, append, contents, size, move}

-- The array has its fixed size, and the counter stays inside it.
pub record IsValid (b : StackBuf) : Type 0 where
  pub array : length b.stack ≡ stack_size
  pub in_array : b.size_ ≤ stack_size

-- Bytes written behind the first `n` leave those, and follow them.
take-write_at :
    (xs vs : Bytes) (n : ℕ)
    → n + length vs ≤ length xs
    → take (n + length vs) (write_at xs n vs) ≡ take n xs ++ vs
take-write_at xs vs n h = rw shape (
    take-append (take n xs ++ vs) post (n + length vs)
      (omega (arith, length-append (take n xs) vs, length-take n xs)))
  where
    rest : Bytes
    rest = drop n xs

    post : Bytes
    post = drop (length vs) rest

    parts : xs ≡ take n xs ++ (take (length vs) rest ++ post)
    parts =
        sym (take-append-drop n xs)
        ∙ ap (λ r. take n xs ++ r) (sym (take-append-drop (length vs) rest))

    shape : write_at xs n vs ≡ (take n xs ++ vs) ++ post
    shape =
        ap (λ r. write_at r n vs) parts
        ∙ write_at-part (take n xs) (take (length vs) rest) post vs n
            (omega (arith, length-take n xs))
            (omega (arith, length-take (length vs) rest, length-drop n xs))
        ∙ sym (append_assoc (take n xs) vs post)

write_at-one : (xs : Bytes) (n v : ℕ) → set xs n v ≡ write_at xs n (v ∷ [])
unfolding write_at
write_at-one xs n v = refl

pub push_back-IsValid : (b : StackBuf) (c : ℕ) → IsValid b → IsValid (push_back b c)
unfolding push_back
push_back-IsValid b c v = ground (arith, length-set b.stack b.size_ c)

pub append-IsValid : (b : StackBuf) (s : Bytes) → IsValid b → IsValid (append b s)
unfolding append
append-IsValid b s v = ground (arith, length-write_at s b.stack b.size_)

pub contents-push_back :
    (b : StackBuf) (c : ℕ) → IsValid b → contents (push_back b c) ≡ contents b ++ (c ∷ [])
unfolding push_back contents
contents-push_back b c v =
    ground (arith, write_at-one b.stack b.size_ c, take-write_at b.stack (c ∷ []) b.size_)

-- The bytes appended follow those that were there, whether the buffer stays on the stack, spills or
-- was on the heap already.
pub contents-append :
    (b : StackBuf) (s : Bytes) → IsRange s → IsValid b → contents (append b s) ≡ contents b ++ s
unfolding append contents
contents-append b s r v = ground (arith, take-write_at b.stack s b.size_)

pub size-contents : (b : StackBuf) → IsValid b → size b ≡ length (contents b)
unfolding size contents
size-contents b v = ground (arith, length-take b.size_ b.stack)

pub move-IsValid :
    (left : Bytes) (b : StackBuf) → IsValid b → IsValid (move left b).0 × IsValid (move left b).1
unfolding move
move-IsValid left b v = ground (arith, length-write_at (take b.size_ b.stack) fresh.stack 0)

pub contents-move :
    (left : Bytes) (b : StackBuf)
    → IsValid b
    → (contents (move left b).0 ≡ contents b) × (contents (move left b).1 ≡ [])
unfolding move contents
contents-move left b v =
    ground (arith, take-write_at fresh.stack (take b.size_ b.stack) 0, length-take b.size_ b.stack)
