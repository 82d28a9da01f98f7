-- ===== src/Logger/Handed.antt =====
-- How the code hands a message to its sinks and reports an exception (include/spdlite/logger.h),
-- against the specification of both.
use spdlite.Base.{
  ℕ, ◌≡◌, refl, ap, ◌∙◌, List, [], ◌∷◌, Bytes, Bool, true, false, Option, none, some, if◌then◌else◌,
}
use spdlite.Base.Exec.{
  Result, ok, fail, Failure, Exec, Done, try, catch, continue, std_exception, other_exception,
  aborted, terminated,
}
use spdlite.Level.{Level, at_least}
use spdlite.Message.{LogMsg}
use spdlite.Sink.{Sink, Tuple, then_rest, for_each, write_all, flush_all}
use spdlite.Buffer.{MemoryBuf}
use spdlite.Logger.{Env, Formatting, dispatch, handle}
use spdlite.Logger.Spec.{Settings, message, in_order, hand_over, reported, send, send_formatted}

module _ {W : Type 0} where
  for_each-in_order :
      (ss : List (Sink W)) (act : (s : Sink W) → Exec (s.State × W) Done) (p : Tuple ss × W)
      → for_each act ss p ≡ in_order ss act p
  unfolding for_each in_order
  for_each-in_order [] act p = refl
  for_each-in_order (s ∷ ss) act ((x, xs), w) =
      by_first (λ w'. for_each-in_order ss act (xs, w')) (act s (x, w))
    where
      by_first :
          ((w' : W) → for_each act ss (xs, w') ≡ in_order ss act (xs, w'))
          → (o : Result Done × (s.State × W))
          → then_rest o (for_each act ss) xs ≡ (
              let out : Result Done × ((s.State × Tuple ss) × W) = elim o.0 [
                | ok _ ↦ (
                  (in_order ss act (xs, o.1.1)).0,
                  ((o.1.0, (in_order ss act (xs, o.1.1)).1.0), (in_order ss act (xs, o.1.1)).1.1),
                )
                | fail e ↦ (fail e, ((o.1.0, xs), o.1.1))
              ] in
              out)
      by_first rest (ok _, (x', w')) = ap (λ z. (z.0, ((x', z.1.0), z.1.1))) (rest w')
      by_first rest (fail e, (x', w')) = refl

  pub flush_all-in_order :
      (ss : List (Sink W)) (p : Tuple ss × W) → flush_all ss p ≡ in_order ss (λ s. s.flush) p
  unfolding flush_all
  flush_all-in_order ss p = for_each-in_order ss (λ s. s.flush) p

  module _ (B : MemoryBuf) (ss : List (Sink W)) (env : Env W) where
    pub dispatch-hand_over :
        (flushes : Bool) (msg : LogMsg) (p : Tuple ss × W)
        → dispatch B ss env flushes msg p ≡ hand_over ss flushes msg p
    unfolding dispatch hand_over write_all
    dispatch-hand_over flushes msg p =
        ap
          (λ (o : Result Done × (Tuple ss × W)).
            continue o.0 (λ _. if flushes then flush_all ss else (λ q. (ok tt, q))) o.1)
          (for_each-in_order ss (λ s. s.write msg) p)
        ∙ flushed flushes (in_order ss (λ s. s.write msg) p)
      where
        flushed :
            (f : Bool) (o : Result Done × (Tuple ss × W))
            → continue o.0 (λ _. if f then flush_all ss else (λ q. (ok tt, q))) o.1 ≡ (
                let out : Result Done × (Tuple ss × W) = elim o.0 [
                  | ok _ ↦ (if f then in_order ss (λ s. s.flush) o.1 else (ok tt, o.1))
                  | fail e ↦ (fail e, o.1)
                ] in
                out)
        flushed true (ok _, q) = flush_all-in_order ss q
        flushed false (ok _, q) = refl
        flushed f (fail e, q) = refl

    pub catch-reported :
        {X : Type 0} (r : Result Done) (p : X × W)
        → catch (handle B ss env) r p ≡ reported env (r, p)
    unfolding reported
    catch-reported (ok a) p = refl
    catch-reported (fail (std_exception what)) p = refl
    catch-reported (fail other_exception) p = refl
    catch-reported (fail aborted) p = refl
    catch-reported (fail terminated) p = refl

    module _ (S : Settings) (t raw : ℕ) (lvl : Level) where
      -- The code behind a payload, on the sinks alone.
      abbrev pub attempt : Bytes → Exec (Tuple ss × W) Done
      attempt payload =
          try (dispatch B ss env (at_least lvl S.flush_level) (message env S t raw lvl payload))
            (handle B ss env)

      abbrev pub attempt_formatted : Formatting → Exec (Tuple ss × W) Done
      attempt_formatted fmt = elim fmt.thrown [
        | none ↦ attempt fmt.out
        | some e ↦ try (λ p. (fail e, p)) (handle B ss env)
      ]

      pub attempt-send :
          (payload : Bytes) (p : Tuple ss × W)
          → attempt payload p ≡ send B ss env S t raw lvl payload p
      attempt-send payload p =
          catch-reported _ _
          ∙ ap (λ o. reported env o)
              (dispatch-hand_over (at_least lvl S.flush_level) (message env S t raw lvl payload) p)

      pub attempt_formatted-send :
          (fmt : Formatting) (p : Tuple ss × W)
          → attempt_formatted fmt p ≡ send_formatted B ss env S t raw lvl fmt p
      attempt_formatted-send fmt p = by_thrown fmt.thrown
        where
          by_thrown :
              (thrown : Option Failure)
              → let fmt' = record fmt { thrown = thrown } in
                attempt_formatted fmt' p ≡ send_formatted B ss env S t raw lvl fmt' p
          by_thrown none = attempt-send fmt.out p
          by_thrown (some e) = catch-reported (fail e) p
