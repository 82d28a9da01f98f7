-- ===== src/Sink.antt =====
-- What a logger needs of a sink (`concept log_sink` in include/spdlite/logger.h), and the tuple of
-- a logger's sinks. `W` is the world that sinks share: files, streams, other loggers' sinks.
use spdlite.Base.{List, [], ◌∷◌}
use spdlite.Base.Exec.{Result, ok, fail, Exec, Done}
use spdlite.Message.{LogMsg}

pub record Sink (W : Type 0) : Type 1 where
  pub State : Type 0
  pub write : LogMsg → Exec (State × W) Done
  pub flush : Exec (State × W) Done

module _ {W : Type 0} where
  -- `std::tuple<Sinks...>`
  abbrev pub Tuple : List (Sink W) → Type 0
  Tuple [] = Unit {0}
  Tuple (s ∷ ss) = s.State × Tuple ss

  -- One more sink in front of those that a fold has reached.
  abbrev pub then_rest :
      {X Y : Type 0} → Result Done × (X × W) → Exec (Y × W) Done → Y → Result Done × ((X × Y) × W)
  then_rest (ok _, (x, w)) rest y = let (r, (y', w')) = rest (y, w) in (r, ((x, y'), w'))
  then_rest (fail e, (x, w)) rest y = (fail e, ((x, y), w))

  -- `(s.f(), ...)`: from left to right; an exception leaves the rest undone.
  unfoldable pub for_each :
      ((s : Sink W) → Exec (s.State × W) Done) → (ss : List (Sink W)) → Exec (Tuple ss × W) Done
  for_each f [] p = (ok tt, p)
  for_each f (s ∷ ss) p = then_rest (f s (p.0.0, p.1)) (for_each f ss) p.0.1

  unfoldable pub write_all : LogMsg → (ss : List (Sink W)) → Exec (Tuple ss × W) Done
  write_all msg = for_each (λ s. s.write msg)

  unfoldable pub flush_all : (ss : List (Sink W)) → Exec (Tuple ss × W) Done
  flush_all = for_each (λ s. s.flush)
