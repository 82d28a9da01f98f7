-- ===== src/SharedSink.antt =====
-- `shared_sink` (include/spdlite/sinks/shared_sink.h). Sinks on the heap are cells; a pointer to one
-- is its place, and a mutex is known by a number. Copies have the same pointer and mutex.
pub mod Copies
use spdlite.Base.{ℕ, List, Option, none, some, set, get_elem?}
use spdlite.Base.Exec.{Result, ok, fail, aborted, Exec, Done}
use spdlite.Message.{LogMsg}
use spdlite.Sink.{Sink}

pub record SharedSink : Type 0 where
  pub sink_ : ℕ
  pub mutex_ : ℕ

-- The constructor; `mutex` is the one that `std::make_shared` makes.
abbrev pub shared_sink : ℕ → ℕ → SharedSink
shared_sink sink mutex = record { sink_ = sink; mutex_ = mutex }

abbrev pub get : SharedSink → ℕ
get s = s.sink_

module _ {W : Type 0} (inner : Sink W) where
  -- The heap, and what the sinks on it reach.
  abbrev pub Heap : Type 0
  Heap = List inner.State × W

  -- A call of the sink that the pointer leads to, under the lock; through a dangling pointer it is
  -- undefined.
  unfoldable pub forward : Exec (inner.State × W) Done → Exec (SharedSink × Heap) Done
  forward call (s, (cells, w)) = elim (get_elem? cells s.sink_) [
    | none ↦ (fail aborted, (s, (cells, w)))
    | some x ↦ let (r, (x', w')) = call (x, w) in (r, (s, (set cells s.sink_ x', w')))
  ]

  unfoldable pub shared_write : LogMsg → Exec (SharedSink × Heap) Done
  unfolding forward
  shared_write msg = forward (inner.write msg)

  unfoldable pub shared_flush : Exec (SharedSink × Heap) Done
  unfolding forward
  shared_flush = forward inner.flush

  abbrev pub sink : Sink Heap
  sink = record { State = SharedSink; write = shared_write; flush = shared_flush }
