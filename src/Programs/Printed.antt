-- ===== src/Programs/Printed.antt =====
-- Loggers on the console (include/spdlite/logger.h, include/spdlite/sinks/console_sink.h) in
-- programs: what their calls put on stdout.
use spdlite.Base.{
  ℕ, ◌+◌, ◌^◌, ◌<◌, ◌≡◌, ◌≢◌, refl, sym, ap, ◌∙◌, arith, List, [], ◌∷◌, ◌++◌, append_assoc, Bytes,
  Bool, true, false, length,
}
use spdlite.Base.Exec.{Result, ok, Exec, Done, continue}
use spdlite.Level.{Level, n_levels, at_least}
use spdlite.Message.{LogMsg}
use spdlite.Sink.{Sink, write_all, flush_all, for_each}
use spdlite.Buffer.{MemoryBuf, IsLawful}
use spdlite.Streams.{stdout, fwrite_bytes}
use spdlite.Console
use spdlite.Console.{ConsoleSink}
use spdlite.Console.Stdout.{IsPlain, Shown, new-IsPlain, write-Shown_plain}
use spdlite.Logger.{Logger, logger, dispatch}
use spdlite.Logger.Setters.{logger-IsValid}
use spdlite.Logger.Spec.{Settings, message}
use spdlite.Programs.{Arg, Host, World, env, ticked, on_streams, make_console, scope, view, say}
use spdlite.Programs.Leaves.{new_settings}
use spdlite.Programs.Said.{Proper, Ready, Said, given, and_then, log_sv-Said, log-Said}
use spdlite.Programs.Files.{line-IsRange}
use spdlite.Programs.Stdout.{printed, console_line, Formats, tag_inside}

module _ (B : MemoryBuf) (L : IsLawful B) (host : Host) where
  abbrev pub consoles : List (Sink World)
  consoles = on_streams (Console.sink B) ∷ []

  -- A console sink of the platform.
  abbrev pub IsTerminal : ConsoleSink B → Type 0
  IsTerminal = IsPlain B L (host.is_tty stdout)

  module _ (S : Settings) where
    -- Calls of a logger that end normally, with `text` on stdout and nothing else changed.
    pub record Printed (text : Bytes) (n : ℕ) (w : World)
        (out : Result Done × (Logger B consoles × World)) : Type 0 where
      pub sink : ConsoleSink B
      pub plain : IsTerminal sink
      pub returns : out.0 ≡ ok tt
      pub world : out.1.1 ≡ printed text n w
      pub ready : Ready B L host consoles S (sink, tt) out.1.0

    -- Code behind code that printed.
    pub then_Printed :
        (text rest : Bytes) (n m : ℕ) (w : World) (first : Exec (Logger B consoles × World) Done)
        (second : Exec (Logger B consoles × World) Done) (p : Logger B consoles × World)
        → Printed text n w (first p)
        → ((sink : ConsoleSink B) (l : Logger B consoles)
            → IsTerminal sink
            → Ready B L host consoles S (sink, tt) l
            → Printed rest m (printed text n w) (second (l, printed text n w)))
        → Printed (text ++ rest) (n + m) w (continue (first p).0 (λ _. second) (first p).1)
    then_Printed text rest n m w first second p one two =
        let behind = and_then (λ _. second) (first p) one.returns one.world in
        let next = two one.sink (first p).1.0 one.plain one.ready in
        record {
          sink = next.sink;
          plain = next.plain;
          returns = ap (λ z. z.0) behind ∙ next.returns;
          world =
              ap (λ z. z.1.1) behind
              ∙ next.world
              ∙ ap
                  (λ t. record w {
                    streams = record w.streams { out = t };
                    readings = w.readings + n + m;
                  })
                  (append_assoc w.streams.out text rest)
              ∙ ap
                  (λ r. record w {
                    streams = record w.streams { out = w.streams.out ++ (text ++ rest) };
                    readings = r;
                  })
                  (omega arith);
          ready = rw behind next.ready;
        }

    module _ (lvl : Level) (known : lvl ≢ n_levels) (short : length S.name < 2 ^ 62) where
      given-consoles :
          (payload : Bytes) (s : ConsoleSink B) (w : World)
          → length payload < 2 ^ 61
          → IsTerminal s
          → (sink : ConsoleSink B) × IsTerminal sink
            × (given B L host consoles S lvl payload (s, tt) w
                ≡ (ok tt, ((sink, tt), printed (console_line host S w.readings lvl payload) 1 w)))
      unfolding dispatch write_all flush_all for_each message fwrite_bytes
      given-consoles payload s w small plain = (
        (Console.write B msg (s, w.streams)).1.0,
        shown.still_plain,
        by_flush (at_least lvl S.flush_level),
      )
        where
          msg : LogMsg
          msg = message (env host) S (host.clock w.readings) host.thread lvl payload

          shown :
              Shown B L
                (host.is_tty stdout)
                s
                plain
                msg
                w.streams
                known
                (line-IsRange host S w.readings lvl payload short small)
                (tag_inside host S w.readings lvl payload known)
                (Console.write B msg (s, w.streams))
          shown =
              write-Shown_plain B L (host.is_tty stdout) s plain msg w.streams known
                (line-IsRange host S w.readings lvl payload short small)
                (tag_inside host S w.readings lvl payload known)

          by_flush :
              (flushes : Bool)
              → dispatch B consoles (env host) flushes msg ((s, tt), ticked host w) ≡ (
                ok tt,
                (
                  ((Console.write B msg (s, w.streams)).1.0, tt),
                  printed (console_line host S w.readings lvl payload) 1 w,
                ),
              )
          by_flush true = rw (shown.returns, shown.streams) refl
          by_flush false = rw (shown.returns, shown.streams) refl

      module _ (proper : Proper host) (passes : at_least lvl S.log_level ≡ true) where
        -- A call that the sink has taken.
        taken :
            (payload : Bytes) (s sink : ConsoleSink B) (w : World)
            (out : Result Done × (Logger B consoles × World))
            → IsTerminal sink
            → given B L host consoles S lvl payload (s, tt) w
              ≡ (ok tt, ((sink, tt), printed (console_line host S w.readings lvl payload) 1 w))
            → Said B L host consoles S lvl payload (s, tt) w out
            → Printed (console_line host S w.readings lvl payload) 1 w out
        taken payload s sink w out plain e said = record {
          sink = sink;
          plain = plain;
          returns = said.returns;
          world = said.world ∙ ap (λ z. z.1.1) e;
          ready = rw (ap (λ z. z.1.0) (sym e)) said.ready;
        }

        pub say-Printed :
            (str : Bytes) (args : List Arg) (s : ConsoleSink B) (l : Logger B consoles) (w : World)
            → Formats host str args
            → IsTerminal s
            → Ready B L host consoles S (s, tt) l
            → Printed
                (console_line host S w.readings lvl (host.format str args).out)
                1
                w
                (say B host consoles lvl str args (l, w))
        say-Printed str args s l w (fine, small) plain h =
            let fmt = host.format str args in
            let (sink, still, e) = given-consoles fmt.out s w small plain in
            taken fmt.out s sink w _ still e (
              log-Said B L host consoles proper S lvl known short fmt fmt.out w fine refl h passes
                (ap (λ z. z.0) e))

        pub view-Printed :
            (payload : Bytes) (s : ConsoleSink B) (l : Logger B consoles) (w : World)
            → length payload < 2 ^ 61
            → IsTerminal s
            → Ready B L host consoles S (s, tt) l
            → Printed
                (console_line host S w.readings lvl payload)
                1
                w
                (view B host consoles lvl payload (l, w))
        view-Printed payload s l w small plain h =
            let (sink, still, e) = given-consoles payload s w small plain in
            taken payload s sink w _ still e (
              log_sv-Said B L host consoles proper S lvl known short payload w
                (omega (arith, small)) h passes (ap (λ z. z.0) e))

  pub same_text-Printed :
      {S : Settings} {text text' : Bytes} {n : ℕ} {w : World}
      {out : Result Done × (Logger B consoles × World)}
      → text ≡ text'
      → Printed S text n w out
      → Printed S text' n w out
  same_text-Printed e h = rw (sym e) h

  pub same_count-Printed :
      {S : Settings} {text : Bytes} {n m : ℕ} {w : World}
      {out : Result Done × (Logger B consoles × World)}
      → n ≡ m
      → Printed S text n w out
      → Printed S text m w out
  same_count-Printed e h = rw (sym e) h

  -- A logger without a name on a new console sink.
  abbrev pub console_logger : Logger B consoles
  console_logger = logger B consoles [] (make_console B host, tt)

  pub console_logger-Ready :
      Ready B L host consoles (new_settings []) (make_console B host, tt) console_logger
  unfolding logger
  console_logger-Ready =
      let (valid, same) = logger-IsValid B L consoles (env host) [] (make_console B host, tt) in
      record { valid = valid; same = same; has = refl }

  pub make_console-IsPlain : IsTerminal (make_console B host)
  make_console-IsPlain = new-IsPlain B L (host.is_tty stdout)

  -- A program that makes such a logger and uses it.
  pub console_program :
      (S : Settings) (body : Exec (Logger B consoles × World) Done) (text : Bytes) (n : ℕ)
      (w : World)
      → Printed S text n w (body (console_logger, w))
      → scope console_logger body w ≡ (ok tt, printed text n w)
  console_program S body text n w h = λ i. (h.returns i, h.world i)
