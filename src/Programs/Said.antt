-- ===== src/Programs/Said.antt =====
-- What a call of a logger leaves (include/spdlite/logger.h), for programs that make many.
use spdlite.Base.{
  ℕ, ◌/◌, ◌^◌, ◌≤◌, ◌<◌, ◌≡◌, ◌≢◌, refl, ap, ◌∙◌, arith, List, Bytes, Bool, true, Option, none,
  some, if◌then◌else◌, if_true, IsRange, length,
}
use spdlite.Base.Int.{pos}
use spdlite.Base.Exec.{Result, ok, fail, Failure, Exec, Done, catch, continue}
use spdlite.Level.{Level, n_levels, at_least}
use spdlite.Sink.{Sink, Tuple}
use spdlite.Buffer.{MemoryBuf, IsLawful}
use spdlite.Formatter.{none, break_down}
use spdlite.Formatter.Widths.{header_bound}
use spdlite.Formatter.Patch.{InRange}
use spdlite.Logger.{Formatting, Logger, dispatch, handle, should_log, log, log_sv}
use spdlite.Logger.Spec.{Settings, message, settings}
use spdlite.Logger.Handed.{attempt, attempt_formatted}
use spdlite.Logger.Refine.{IsValid, Sound, Agrees}
use spdlite.Logger.Calls.{log-attempted, log_sv-attempted}
use spdlite.Programs.{Host, World, env, ticked, timed}

-- The machine is as documented: the clock is a second or more past the epoch, and the C library
-- breaks a time into fields of their widths.
pub record Proper (host : Host) : Type 0 where
  pub after_epoch : (k : ℕ) → 1000000000 ≤ host.clock k
  pub in_range :
      (utc : Bool) (k : ℕ) → InRange (break_down host.libc utc (pos (host.clock k / 1000000000)))

-- Code behind code that ended normally in this world.
pub and_then :
    {X : Type 0} {w : World} (f : Done → Exec (X × World) Done) (out : Result Done × (X × World))
    → out.0 ≡ ok tt
    → out.1.1 ≡ w
    → continue out.0 f out.1 ≡ f tt (out.1.0, w)
and_then f (ok tt, (x, v)) e at = ap (λ z. f tt (x, z)) at
and_then f (fail e, (x, v)) h at = absurd (failed h)
  where
    failed : ◌≡◌ {A = Result Done} (fail e) (ok tt) → ⊥
    failed q = cc q

module _ (B : MemoryBuf) (L : IsLawful B) (host : Host) (ss : List (Sink World)) where
  -- A logger that can be called, with the settings `S` and the sinks `xs`.
  pub record Ready (S : Settings) (xs : Tuple ss) (l : Logger B ss) : Type 0 where
    pub valid : IsValid B L ss (env host) l
    pub same : settings B ss l ≡ S
    pub has : l.sinks ≡ xs

  -- What the sinks are given for a line with this payload.
  abbrev pub given : Settings → Level → Bytes → Tuple ss → World → Result Done × (Tuple ss × World)
  given S lvl payload xs w =
      dispatch B ss (env host) (at_least lvl S.flush_level)
        (message (env host) S (host.clock w.readings) host.thread lvl payload) (xs, ticked host w)

  -- A call that ends normally, with what the sinks made of the line.
  pub record Said (S : Settings) (lvl : Level) (payload : Bytes) (xs : Tuple ss) (w : World)
      (out : Result Done × (Logger B ss × World)) : Type 0 where
    pub returns : out.0 ≡ ok tt
    pub world : out.1.1 ≡ (given S lvl payload xs w).1.1
    pub ready : Ready S (given S lvl payload xs w).1.0 out.1.0

  module _ (proper : Proper host) (S : Settings) (lvl : Level) (known : lvl ≢ n_levels)
      (short : length S.name < 2 ^ 62) where
    sound :
        {xs : Tuple ss} {l : Logger B ss} (w : World)
        → Ready S xs l
        → Sound B L ss (env host) l (host.clock w.readings) host.thread lvl
    sound {l = l} w h = record {
      known = known;
      after_epoch = proper.after_epoch w.readings;
      in_range = proper.in_range l.formatter.opts.utc w.readings;
      fits = omega (
        arith,
        header_bound host.libc l.formatter.opts l.name (host.clock w.readings) host.thread lvl,
        ap (λ s. length s.name) h.same,
      );
    }

    -- An outcome that agrees with a specification which ends normally.
    agreed :
        {xs : Tuple ss} {l : Logger B ss} (payload : Bytes) (w : World)
        (spec : Result Done × (Tuple ss × World)) (out : Result Done × (Logger B ss × World))
        → Ready S xs l
        → spec ≡ given S lvl payload xs w
        → (given S lvl payload xs w).0 ≡ ok tt
        → Agrees B L ss (env host) l out spec
        → Said S lvl payload xs w out
    agreed payload w spec out h e fine a = record {
      returns = a.result ∙ ap (λ z. z.0) e ∙ fine;
      world = a.world ∙ ap (λ z. z.1.1) e;
      ready = record {
        valid = a.valid;
        same = a.same_settings ∙ h.same;
        has = a.sinks ∙ ap (λ z. z.1.0) e;
      };
    }

    not_caught :
        {X : Type 0} (m : Failure → Exec X Done) (r : Result Done) (x : X)
        → r ≡ ok tt
        → catch m r x ≡ (r, x)
    not_caught m (ok a) x e = refl
    not_caught m (fail f) x e = absurd (failed e)
      where
        failed : ◌≡◌ {A = Result Done} (fail f) (ok tt) → ⊥
        failed h = cc h

    -- The specification of a call that the level lets through, at the settings of the logger.
    passed :
        (spec : Settings → Tuple ss → Result Done × (Tuple ss × World)) {xs : Tuple ss}
        {l : Logger B ss} (w : World)
        → Ready S xs l
        → at_least lvl S.log_level ≡ true
        → (if at_least lvl l.log_level
            then spec (settings B ss l) l.sinks
            else (ok tt, (l.sinks, ticked host w)))
          ≡ spec S xs
    passed spec {xs} {l} w h passes =
        ap (λ t. if t then spec (settings B ss l) l.sinks else (ok tt, (l.sinks, ticked host w)))
          (ap (λ z. at_least lvl z.log_level) h.same ∙ passes)
        ∙ ap (λ z. spec z l.sinks) h.same
        ∙ ap (λ z. spec S z) h.has

    -- Such a call reads the clock.
    read :
        {xs : Tuple ss} {l : Logger B ss} (w : World)
        → Ready S xs l
        → at_least lvl S.log_level ≡ true
        → (if should_log B ss l lvl then ticked host w else w) ≡ ticked host w
    unfolding should_log
    read w h passes = if_true _ (ap (λ z. at_least lvl z.log_level) h.same ∙ passes)

    -- A call with a plain view.
    pub log_sv-Said :
        (payload : Bytes) {xs : Tuple ss} {l : Logger B ss} (w : World)
        → IsRange payload
        → Ready S xs l
        → at_least lvl S.log_level ≡ true
        → (given S lvl payload xs w).0 ≡ ok tt
        → Said S lvl payload xs w
            (timed B host ss lvl (λ call. log_sv B ss (env host) call lvl payload) (l, w))
    log_sv-Said payload {xs} {l} w range h passes fine = rw (read w h passes) (
        agreed payload w _ _ h
          (passed
              (λ z ys.
                attempt B ss (env host) z (host.clock w.readings) host.thread lvl payload
                  (ys, ticked host w))
              w h passes
            ∙ not_caught (handle B ss (env host)) (given S lvl payload xs w).0
                (given S lvl payload xs w).1 fine)
          fine
          (log_sv-attempted B L ss (env host) l (host.clock w.readings) host.thread lvl h.valid
            (sound w h) payload (ticked host w) range))

    sent :
        (t : ℕ) (fmt : Formatting) (thrown : Option Failure) (payload : Bytes)
        (p : Tuple ss × World)
        → thrown ≡ none
        → fmt.out ≡ payload
        → attempt_formatted B ss (env host) S t host.thread lvl (record fmt { thrown = thrown }) p
          ≡ attempt B ss (env host) S t host.thread lvl payload p
    sent t fmt none payload p e o = ap (λ z. attempt B ss (env host) S t host.thread lvl z p) o
    sent t fmt (some f) payload p e o = absurd (some_none e)
      where
        some_none : some f ≡ none → ⊥
        some_none h = cc h

    -- A call with a format string and its arguments, which formats as the payload.
    pub log-Said :
        (fmt : Formatting) (payload : Bytes) {xs : Tuple ss} {l : Logger B ss} (w : World)
        → fmt.thrown ≡ none
        → fmt.out ≡ payload
        → Ready S xs l
        → at_least lvl S.log_level ≡ true
        → (given S lvl payload xs w).0 ≡ ok tt
        → Said S lvl payload xs w
            (timed B host ss lvl (λ call. log B ss (env host) call lvl fmt) (l, w))
    log-Said fmt payload {xs} {l} w calm same_text h passes fine = rw (read w h passes) (
        agreed payload w _ _ h
          (passed
              (λ z ys.
                attempt_formatted B ss (env host) z (host.clock w.readings) host.thread lvl fmt
                  (ys, ticked host w))
              w h passes
            ∙ sent (host.clock w.readings) fmt fmt.thrown payload (xs, ticked host w) calm same_text
            ∙ not_caught (handle B ss (env host)) (given S lvl payload xs w).0
                (given S lvl payload xs w).1 fine)
          fine
          (log-attempted B L ss (env host) l (host.clock w.readings) host.thread lvl h.valid
            (sound w h) fmt (ticked host w)))
