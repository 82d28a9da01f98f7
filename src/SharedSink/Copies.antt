-- ===== src/SharedSink/Copies.antt =====
-- Calls through any copies of a shared sink (include/spdlite/sinks/shared_sink.h) against calls of
-- the sink itself.
use spdlite.Base.{
  ℕ, ◌≡◌, refl, sym, ap, ◌∙◌, List, [], ◌∷◌, some, set, get_elem?, set_self, get_elem?-set_self,
  set-set,
}
use spdlite.Base.Exec.{Result, ok, fail, Exec, Done, pure, continue, ◌>>◌}
use spdlite.Message.{LogMsg}
use spdlite.Sink.{Sink}
use spdlite.SharedSink.{SharedSink, Heap, forward, shared_write, shared_flush}

-- What can be called of a sink.
pub data SinkCall : Type 0 where
  write : LogMsg → SinkCall
  flush : SinkCall

module _ {W : Type 0} (inner : Sink W) where
  abbrev pub call_of : SinkCall → Exec (inner.State × W) Done
  call_of (write msg) = inner.write msg
  call_of flush = inner.flush

  -- Calls of the sink, one after the other; an exception ends them.
  unfoldable pub direct : List SinkCall → Exec (inner.State × W) Done
  direct [] = pure tt
  direct (c ∷ cs) = call_of c >> direct cs

  abbrev pub through_one : SharedSink → SinkCall → Exec (SharedSink × Heap inner) Done
  through_one s (write msg) = shared_write inner msg
  through_one s flush = shared_flush inner

  -- The same calls, each through a copy of its own.
  unfoldable pub through : List (SharedSink × SinkCall) → Exec (Heap inner) Done
  through [] = pure tt
  through ((s, c) ∷ cs) = (λ h. let (r, (s', h')) = through_one s c (s, h) in (r, h')) >> through cs

  abbrev pub AllAt : ℕ → List (SharedSink × SinkCall) → Type 0
  AllAt k [] = Unit {0}
  AllAt k ((s, c) ∷ cs) = (s.sink_ ≡ k) × AllAt k cs

  abbrev pub calls : List (SharedSink × SinkCall) → List SinkCall
  calls [] = []
  calls ((s, c) ∷ cs) = c ∷ calls cs

  -- Back in the heap.
  abbrev pub stored :
      ℕ → List inner.State → Result Done × (inner.State × W) → Result Done × Heap inner
  stored k cells (r, (x, w)) = (r, (set cells k x, w))

  one-stored :
      (s : SharedSink) (c : SinkCall) (cells : List inner.State) (x : inner.State) (w : W)
      → get_elem? cells s.sink_ ≡ some x
      → through_one s c (s, (cells, w)) ≡ (
        (call_of c (x, w)).0,
        (s, (set cells s.sink_ (call_of c (x, w)).1.0, (call_of c (x, w)).1.1)),
      )
  unfolding shared_write shared_flush
  one-stored s (write msg) cells x w h = rw (h, forward)
  one-stored s flush cells x w h = rw (h, forward)

  stored-set :
      (k : ℕ) (cells : List inner.State) (y : inner.State) (out : Result Done × (inner.State × W))
      → stored k (set cells k y) out ≡ stored k cells out
  stored-set k cells y (r, (x, w)) = ap (λ t. (r, (t, w))) (set-set cells k y x)

  -- Calls through copies of one shared sink, whichever copies they are, end as the same calls of
  -- the sink itself, with the same result, exceptions included, and change no other sink on the
  -- heap. The pointer of the copies leads to the sink.
  pub through-direct :
      (cs : List (SharedSink × SinkCall)) (k : ℕ) (cells : List inner.State) (x : inner.State)
      (w : W)
      → AllAt k cs
      → get_elem? cells k ≡ some x
      → through cs (cells, w) ≡ stored k cells (direct (calls cs) (x, w))
  unfolding through direct
  through-direct [] k cells x w at h = ap (λ t. (ok tt, (t, w))) (sym (set_self cells k x h))
  through-direct ((s, c) ∷ cs) k cells x w (at, rest) h =
      rw (one-stored s c cells x w (ap (λ i. get_elem? cells i) at ∙ h), at)
        (behind
          (λ y v. through-direct cs k (set cells k y) y v rest (get_elem?-set_self cells k x y h))
          (call_of c (x, w)))
    where
      behind :
          ((y : inner.State) (v : W)
            → through cs (set cells k y, v) ≡ stored k (set cells k y) (direct (calls cs) (y, v)))
          → (out : Result Done × (inner.State × W))
          → continue out.0 (λ _. through cs) (set cells k out.1.0, out.1.1)
            ≡ stored k cells (continue out.0 (λ _. direct (calls cs)) out.1)
      behind here (ok a, (y, v)) = here y v ∙ stored-set k cells y (direct (calls cs) (y, v))
      behind here (fail e, (y, v)) = refl
