-- ===== src/Logger/Errors.antt =====
-- What a call of a logger may end with (the `try` blocks and `noexcept` of
-- include/spdlite/logger.h), for any state of the logger, its buffer, sinks and world.
use spdlite.Base.{
  ℕ, ◌≡◌, ◌⊎◌, inl, inr, refl, ap, List, [], ◌∷◌, Bytes, Bool, true, false, Option, none, some,
  if◌then◌else◌,
}
use spdlite.Base.Exec.{
  Result, ok, fail, Failure, std_exception, other_exception, aborted, terminated, Exec, Done, catch,
  continue, bind,
}
use spdlite.Base.Int.{ℤ}
use spdlite.Level.{Level, trace, debug, info, warn, err, critical, off, n_levels, to_string_view}
use spdlite.Message.{LogMsg}
use spdlite.Sink.{Sink, Tuple, then_rest, for_each, write_all, flush_all}
use spdlite.Buffer.{MemoryBuf}
use spdlite.Formatter.{Formatter, LibC, format_header}
use spdlite.Logger.{
  Env, Call, Formatting, Logger, log, log_sv, log_sv_, log_fmt_args_, no_except, handle, dispatch,
  with_header, add_view, add_formatted, deliver, should_log,
}

-- No `std::terminate` of a sink's own.
abbrev pub Bears : {A : Type 0} → Result A → Type 0
Bears (fail terminated) = ⊥
Bears (fail aborted) = Unit
Bears (fail other_exception) = Unit
Bears (fail (std_exception what)) = Unit
Bears (ok a) = Unit

abbrev pub Thrown : Option Failure → Type 0
Thrown none = Unit
Thrown (some e) = Bears {A = Done} (fail e)

-- A call that returns, or a failed assertion, which ends the program.
abbrev pub Returns : Result Done → Type 0
Returns r = (r ≡ ok tt) ⊎ (r ≡ fail aborted)

-- Each of the sinks may throw what it likes, and fail its assertions.
abbrev pub Calm : {W : Type 0} → List (Sink W) → Type 0
Calm [] = Unit
Calm {W} (s ∷ ss) =
    ((msg : LogMsg) (p : s.State × W) → Bears (s.write msg p).0)
    × ((p : s.State × W) → Bears (s.flush p).0)
    × Calm ss

module _ {W : Type 0} where
  then_rest-Bears :
      {X Y : Type 0} (o : Result Done × (X × W)) (rest : Exec (Y × W) Done) (y : Y)
      → Bears o.0
      → ((p : Y × W) → Bears (rest p).0)
      → Bears (then_rest o rest y).0
  then_rest-Bears (ok a, (x, w)) rest y h each = each (y, w)
  then_rest-Bears (fail e, (x, w)) rest y h each = h

  writes-Bears :
      (ss : List (Sink W)) (msg : LogMsg) (p : Tuple ss × W)
      → Calm ss
      → Bears (for_each (λ s. s.write msg) ss p).0
  unfolding for_each
  writes-Bears [] msg p calm = tt
  writes-Bears (s ∷ ss) msg p (now, flushes, later) =
      then_rest-Bears (s.write msg (p.0.0, p.1)) (for_each (λ t. t.write msg) ss) p.0.1
        (now msg (p.0.0, p.1)) (λ q. writes-Bears ss msg q later)

  flushes-Bears :
      (ss : List (Sink W)) (p : Tuple ss × W) → Calm ss → Bears (for_each (λ s. s.flush) ss p).0
  unfolding for_each
  flushes-Bears [] p calm = tt
  flushes-Bears (s ∷ ss) p (writes, now, later) =
      then_rest-Bears (s.flush (p.0.0, p.1)) (for_each (λ t. t.flush) ss) p.0.1 (now (p.0.0, p.1))
        (λ q. flushes-Bears ss q later)

tag-Bears : (lvl : Level) → Bears (to_string_view lvl)
unfolding to_string_view
tag-Bears trace = tt
tag-Bears debug = tt
tag-Bears info = tt
tag-Bears warn = tt
tag-Bears err = tt
tag-Bears critical = tt
tag-Bears off = tt
tag-Bears n_levels = tt

header-Bears :
    (B : MemoryBuf) (c : LibC) (f : Formatter) (t : ℤ) (lvl : Level) (raw : ℕ) (b : B.State)
    → Bears (format_header B c f t lvl raw b)
unfolding format_header
header-Bears B c f t lvl raw b = by_tag _ (to_string_view lvl) (tag-Bears lvl)
  where
    by_tag :
        (k : Bytes → Formatter × B.State) (r : Result Bytes)
        → Bears r
        → Bears (bind {B = Formatter × B.State} r (λ x. ok (k x)))
    by_tag k (ok x) h = tt
    by_tag k (fail terminated) h = h
    by_tag k (fail aborted) h = h
    by_tag k (fail other_exception) h = h
    by_tag k (fail (std_exception what)) h = h

module _ (B : MemoryBuf) {W : Type 0} (ss : List (Sink W)) where
  -- The name and the levels are those of `l`.
  abbrev pub Same : Logger B ss → Logger B ss → Type 0
  Same l l' = (l'.name ≡ l.name) × (l'.log_level ≡ l.log_level) × (l'.flush_level ≡ l.flush_level)

  abbrev pub Safe : Logger B ss → Result Done × (Logger B ss × W) → Type 0
  Safe l out = Returns out.0 × Same l out.1.0

  module _ (env : Env W) (call : Call) (lvl : Level) where
    -- No termination, and the logger as it was in these.
    abbrev Sane : Logger B ss → Result Done × (Logger B ss × W) → Type 0
    Sane l out = Bears out.0 × Same l out.1.0

    caught :
        (l : Logger B ss) (r : Result Done) (p : Logger B ss × W)
        → Sane l (r, p)
        → Safe l (catch (handle B ss env) r p)
    caught l (ok a) p (fine, h) = (inl refl, h)
    caught l (fail (std_exception what)) p (fine, h) = (inl refl, h)
    caught l (fail other_exception) p (fine, h) = (inl refl, h)
    caught l (fail aborted) p (fine, h) = (inr refl, h)
    caught l (fail terminated) p (fine, h) = absurd fine

    -- What returns stays so behind `noexcept`.
    stays :
        (l : Logger B ss) (out : Result Done × (Logger B ss × W))
        → Safe l out
        → Safe l (no_except B ss out.0, out.1)
    stays l out (inl e, h) = (inl (ap (no_except B ss) e), h)
    stays l out (inr e, h) = (inr (ap (no_except B ss) e), h)

    settled :
        (l : Logger B ss) (o : Result Done × (Logger B ss × W))
        → Sane l o
        → Safe l (
          no_except B ss (catch (handle B ss env) o.0 o.1).0,
          (catch (handle B ss env) o.0 o.1).1,
        )
    settled l o h = stays l (catch (handle B ss env) o.0 o.1) (caught l o.0 o.1 h)

    -- Behind the header, if there is one.
    headed :
        (l : Logger B ss) (w : W) (body : Exec (Logger B ss × W) Done)
        → ((f : Formatter) (b : B.State) → Sane l (body (record l { formatter = f; buf = b }, w)))
        → Sane l (with_header B ss env call lvl body (l, w))
    unfolding with_header
    headed l w body keeps =
        by_result (format_header B env.libc l.formatter call.now lvl call.thread (B.clear l.buf))
          (header-Bears B env.libc l.formatter call.now lvl call.thread (B.clear l.buf))
      where
        by_result :
            (r : Result (Formatter × B.State))
            → Bears r
            → (let out : Result Done × (Logger B ss × W) = elim r [
              | ok (f, b) ↦ body (record l { formatter = f; buf = b }, w)
              | fail e ↦ (fail e, (record l { buf = B.clear l.buf }, w))
            ] in
                Sane l out)
        by_result (ok (f, b)) h = keeps f b
        by_result (fail terminated) h = absurd h
        by_result (fail aborted) h = (tt, (refl, refl, refl))
        by_result (fail other_exception) h = (tt, (refl, refl, refl))
        by_result (fail (std_exception what)) h = (tt, (refl, refl, refl))

    module _ (calm : Calm ss) where
      dispatched :
          (flushes : Bool) (msg : LogMsg) (p : Tuple ss × W)
          → Bears (dispatch B ss env flushes msg p).0
      unfolding dispatch write_all flush_all
      dispatched flushes msg p =
          by_writes flushes (for_each (λ s. s.write msg) ss p) (writes-Bears ss msg p calm)
        where
          by_writes :
              (f : Bool) (o : Result Done × (Tuple ss × W))
              → Bears o.0
              → Bears
                  (continue o.0
                    (λ _. if f then for_each (λ s. s.flush) ss else (λ q. (ok tt, q)))
                    o.1).0
          by_writes true (ok a, q) h = flushes-Bears ss q calm
          by_writes false (ok a, q) h = tt
          by_writes f (fail e, q) h = h

      view_kept :
          (sv : Bytes) (l : Logger B ss) (w : W) (f : Formatter) (b : B.State)
          → Sane l (add_view B ss env call lvl sv (record l { formatter = f; buf = b }, w))
      unfolding deliver
      view_kept sv l w f b = (dispatched _ _ _, (refl, refl, refl))

      formatted_kept :
          (fmt : Formatting) (l : Logger B ss) (w : W) (f : Formatter) (b : B.State)
          → Thrown fmt.thrown
          → Sane l (add_formatted B ss env call lvl fmt (record l { formatter = f; buf = b }, w))
      unfolding deliver
      formatted_kept fmt l w f b = by_thrown fmt.thrown
        where
          by_thrown :
              (thrown : Option Failure)
              → Thrown thrown
              → Sane l (
                  add_formatted B ss env call lvl
                    (record fmt { thrown = thrown })
                    (record l { formatter = f; buf = b }, w))
          by_thrown none h = (dispatched _ _ _, (refl, refl, refl))
          by_thrown (some e) h = (h, (refl, refl, refl))

    gated :
        (l : Logger B ss) (w : W) (t : Bool) (m : Exec (Logger B ss × W) Done)
        → Safe l (m (l, w))
        → Safe l (if t then m (l, w) else (ok tt, (l, w)))
    gated l w true m h = h
    gated l w false m h = (inl refl, (refl, refl, refl))

    -- Whatever the state of a logger, its buffer, sinks and world, and whatever the formatting and
    -- the sinks throw, log with a format string and log with a plain view throw nothing and do not
    -- terminate: each returns, or ends in a failed assertion, and keeps the name and the levels. No
    -- sink terminates by itself, and neither does the formatting.
    pub log-Safe :
        (l : Logger B ss) (w : W) (fmt : Formatting) (sv : Bytes)
        → Calm ss
        → Thrown fmt.thrown
        → Safe l (log B ss env call lvl fmt (l, w)) × Safe l (log_sv B ss env call lvl sv (l, w))
    unfolding log log_sv log_sv_ log_fmt_args_
    log-Safe l w fmt sv calm thrown = (
      gated l w (should_log B ss l lvl) (log_fmt_args_ B ss env call lvl fmt) (
          settled l (with_header B ss env call lvl (add_formatted B ss env call lvl fmt) (l, w))
            (headed l w _ (λ f b. formatted_kept calm fmt l w f b thrown))),
      gated l w (should_log B ss l lvl) (log_sv_ B ss env call lvl sv) (
          settled l (with_header B ss env call lvl (add_view B ss env call lvl sv) (l, w))
            (headed l w _ (view_kept calm sv l w))),
    )
