-- ===== src/Buffer/StackBuf.antt =====
-- `detail::stack_buf<250>` (include/spdlite/common.h): an array of bytes with a string on the heap
-- behind it. `heap_` is either null or the address of the buffer's own `heap_storage_`, so the
-- pointer is the flag `on_heap`.
pub mod Laws
pub mod Refine
use spdlite.Base.{
  ℕ, zero, ◌+◌, ◌%◌, ◌^◌, List, [], ◌∷◌, ◌++◌, Bytes, Bool, true, false, ltb, leb, set, write_at,
  take, length, replicate, if◌then◌else◌,
}

abbrev pub stack_size : ℕ
stack_size = 250

pub record StackBuf : Type 0 where
  pub stack : Bytes
  pub size_ : ℕ
  pub on_heap : Bool
  pub heap_storage : Bytes

-- The array is not initialised; any bytes of its size would do.
abbrev pub fresh : StackBuf
fresh = record { stack = replicate stack_size 0; size_ = 0; on_heap = false; heap_storage = [] }

-- `heap_storage_.assign(stack_, size_); heap_ = &heap_storage_;`
unfoldable pub spill_to_heap : StackBuf → StackBuf
spill_to_heap b = record b { on_heap = true; heap_storage = take b.size_ b.stack }

unfoldable pub push_back : StackBuf → ℕ → StackBuf
unfolding spill_to_heap
push_back b c =
    if b.on_heap
    then record b { heap_storage = b.heap_storage ++ (c ∷ []) }
    else if ltb b.size_ stack_size
    then record b { stack = set b.stack b.size_ c; size_ = b.size_ + 1 }
    else (let b' = spill_to_heap b in record b' { heap_storage = b'.heap_storage ++ (c ∷ []) })

-- `s` is the range from `begin` to `end`; the sum is a `std::size_t`.
unfoldable pub append : StackBuf → Bytes → StackBuf
unfolding spill_to_heap
append b s =
    let n = length s in
    if b.on_heap
    then record b { heap_storage = b.heap_storage ++ s }
    else if leb ((b.size_ + n) % 2 ^ 64) stack_size
    then record b { stack = write_at b.stack b.size_ s; size_ = (b.size_ + n) % 2 ^ 64 }
    else (let b' = spill_to_heap b in record b' { heap_storage = b'.heap_storage ++ s })

unfoldable pub clear : StackBuf → StackBuf
clear b = record b { on_heap = false; size_ = 0 }

-- `size()` bytes from `data()`
unfoldable pub contents : StackBuf → Bytes
contents b = if b.on_heap then b.heap_storage else take b.size_ b.stack

unfoldable pub size : StackBuf → ℕ
size b = if b.on_heap then length b.heap_storage else b.size_

-- The move constructor. The new buffer starts with its own members' initial values, and takes the
-- string of the old one; it points to its own string, and copies the array only when that is used.
-- What the standard leaves in the old string is not specified, and is the argument `left`.
unfoldable pub move : Bytes → StackBuf → StackBuf × StackBuf
move left other =
    let moved : StackBuf = record {
      stack =
          if other.on_heap
          then fresh.stack
          else write_at fresh.stack 0 (take other.size_ other.stack);
      size_ = if other.on_heap then 0 else other.size_;
      on_heap = other.on_heap;
      heap_storage = other.heap_storage;
    } in
    (moved, record other { size_ = 0; on_heap = false; heap_storage = left })
