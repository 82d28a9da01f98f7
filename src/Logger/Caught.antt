-- ===== src/Logger/Caught.antt =====
-- The `catch` clauses and `noexcept` of a logger's calls (include/spdlite/logger.h), with the logger
-- around them and without.
use spdlite.Base.{◌≡◌, refl, ◌∙◌, List}
use spdlite.Base.Exec.{
  Result, ok, fail, Done, catch, std_exception, other_exception, aborted, terminated,
}
use spdlite.Sink.{Sink, Tuple}
use spdlite.Buffer.{MemoryBuf, IsLawful}
use spdlite.Logger.{Env, Logger, handle, no_except}
use spdlite.Logger.Spec.{settings}
use spdlite.Logger.Refine.{IsValid, Agrees}

module _ (B : MemoryBuf) (L : IsLawful B) {W : Type 0} (ss : List (Sink W)) (env : Env W) where
  -- The handler sees the outcome of the sinks, with the logger around them.
  pub caught :
      (l l' : Logger B ss) (r : Result Done) (xs : Tuple ss) (w : W)
      → settings B ss l' ≡ settings B ss l
      → IsValid B L ss env l'
      → Agrees B L ss env l
          (catch (handle B ss env) r (record l' { sinks = xs }, w))
          (catch (handle B ss env) r (xs, w))
  caught l l' (ok a) xs w e v = record {
    result = refl;
    sinks = refl;
    world = refl;
    same_settings = e;
    valid = record { buffer = v.buffer; cache = v.cache };
  }
  caught l l' (fail (std_exception m)) xs w e v = record {
    result = refl;
    sinks = refl;
    world = refl;
    same_settings = e;
    valid = record { buffer = v.buffer; cache = v.cache };
  }
  caught l l' (fail other_exception) xs w e v = record {
    result = refl;
    sinks = refl;
    world = refl;
    same_settings = e;
    valid = record { buffer = v.buffer; cache = v.cache };
  }
  caught l l' (fail aborted) xs w e v = record {
    result = refl;
    sinks = refl;
    world = refl;
    same_settings = e;
    valid = record { buffer = v.buffer; cache = v.cache };
  }
  caught l l' (fail terminated) xs w e v = record {
    result = refl;
    sinks = refl;
    world = refl;
    same_settings = e;
    valid = record { buffer = v.buffer; cache = v.cache };
  }

  -- The handler leaves no exception, so `noexcept` changes nothing.
  noexcept-catch :
      {X : Type 0} (r : Result Done) (p : X × W)
      → no_except B ss (catch (handle B ss env) r p).0 ≡ (catch (handle B ss env) r p).0
  noexcept-catch (ok a) p = refl
  noexcept-catch (fail (std_exception m)) p = refl
  noexcept-catch (fail other_exception) p = refl
  noexcept-catch (fail aborted) p = refl
  noexcept-catch (fail terminated) p = refl

  pub quiet :
      (l : Logger B ss) (o : Result Done × (Logger B ss × W)) (spec : Result Done × (Tuple ss × W))
      → Agrees B L ss env l (catch (handle B ss env) o.0 o.1) spec
      → Agrees B L ss env l
          (no_except B ss (catch (handle B ss env) o.0 o.1).0, (catch (handle B ss env) o.0 o.1).1)
          spec
  quiet l o spec a = record {
    result = noexcept-catch o.0 o.1 ∙ a.result;
    sinks = a.sinks;
    world = a.world;
    same_settings = a.same_settings;
    valid = record { buffer = a.valid.buffer; cache = a.valid.cache };
  }
