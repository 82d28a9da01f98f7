-- ===== src/Programs/Rolling.antt =====
-- Loggers with a rotating sink (include/spdlite/logger.h,
-- include/spdlite/sinks/rotating_file_sink.h) in programs: the rolling log behind their calls.
use spdlite.Base.{
  ℕ, zero, suc, ◌+◌, ◌^◌, ◌<◌, ◌≤◌, ◌≡◌, ◌≢◌, refl, sym, ap, ◌∙◌, arith, List, [], ◌∷◌, Bytes, Bool,
  true, false, none, length,
}
use spdlite.Base.Exec.{Result, ok, Exec, Done}
use spdlite.Level.{Level, n_levels, at_least}
use spdlite.Message.{LogMsg}
use spdlite.Sink.{Sink, write_all, flush_all, for_each}
use spdlite.Buffer.{MemoryBuf, IsLawful}
use spdlite.Disk.{FilePath, Entries, lookup}
use spdlite.Rotating.Foreign.{IsForeign}
use spdlite.Logger.{Logger, dispatch}
use spdlite.Logger.Spec.{Settings, message}
use spdlite.Rotating
use spdlite.Rotating.{RotatingFileSink}
use spdlite.Rotating.Names.{max_idx}
use spdlite.Rotating.Steps.{calm}
use spdlite.Rotating.Log.{RollingLog, roll}
use spdlite.Rotating.Refine.{Holds, Stepped}
use spdlite.Rotating.Runs.{write-Stepped, same_log-Holds}
use spdlite.Programs.{Arg, Host, World, env, ticked, on_disk, rotating, say, for_range}
use spdlite.Programs.Said.{Proper, Ready, given, and_then, log-Said}
use spdlite.Programs.Files.{over, line_at, line-IsRange}

-- The lines of `n` calls of `say` from the argument `i` and the reading `r` on.
unfoldable pub line_list : Host → Settings → Level → Bytes → (ℕ → List Arg) → ℕ → ℕ → ℕ → List Bytes
line_list host S lvl str args zero i r = []
line_list host S lvl str args (suc n) i r =
    line_at host S r lvl (host.format str (args i)).out
    ∷ line_list host S lvl str args n (i + 1) (r + 1)

-- The log after these lines.
unfoldable pub roll_lines : ℕ → ℕ → List Bytes → RollingLog → RollingLog
roll_lines max_size max_files [] log = log
roll_lines max_size max_files (line ∷ lines) log =
    roll_lines max_size max_files lines (roll max_size max_files line log)

module _ (B : MemoryBuf) (L : IsLawful B) (host : Host) where
  abbrev pub rotatings : List (Sink World)
  rotatings = on_disk rotating ∷ []

  module _ (S : Settings) (lvl : Level) where
    -- What the sink makes of the line, in a world.
    given-rotating :
        (payload line : Bytes) (s : RotatingFileSink) (log : RollingLog) (w : World) (es : Entries)
        → (step : Stepped s es line log (
            Rotating.write
              (message (env host) S (host.clock w.readings) host.thread lvl payload)
              (s, calm es)))
        → given B L host rotatings S lvl payload (s, tt) (over w es)
          ≡ (ok tt, ((step.sink, tt), over (ticked host w) step.entries))
    unfolding dispatch write_all flush_all for_each
    given-rotating payload line s log w es step = by_flush (at_least lvl S.flush_level)
      where
        msg : LogMsg
        msg = message (env host) S (host.clock w.readings) host.thread lvl payload

        by_flush :
            (flushes : Bool)
            → dispatch B rotatings (env host) flushes msg ((s, tt), ticked host (over w es))
              ≡ (ok tt, ((step.sink, tt), over (ticked host w) step.entries))
        by_flush true = rw step.returns refl
        by_flush false = rw step.returns refl

    -- Calls of a logger that end normally, and leave a sink that holds `log`.
    pub record Rolled (s : RotatingFileSink) (es : Entries) (log : RollingLog) (n : ℕ) (w : World)
        (out : Result Done × (Logger B rotatings × World)) : Type 0 where
      pub sink : RotatingFileSink
      pub entries : Entries
      pub returns : out.0 ≡ ok tt
      pub world : out.1.1 ≡ over (record w { readings = w.readings + n }) entries
      pub holds : Holds sink entries log
      pub same_limits : (sink.max_size ≡ s.max_size) × (sink.max_files ≡ s.max_files)
      pub same_base : sink.base_filename ≡ s.base_filename
      pub index : (s.next_index ≤ sink.next_index) × (sink.next_index ≤ s.next_index + n)
      pub others : (q : FilePath) → IsForeign s.base_filename q → lookup q entries ≡ lookup q es
      pub ready : Ready B L host rotatings S (sink, tt) out.1.0

    module _ (proper : Proper host) (known : lvl ≢ n_levels) (short : length S.name < 2 ^ 62)
        (passes : at_least lvl S.log_level ≡ true) where
      say-Rolled :
          (str : Bytes) (args : List Arg) (s : RotatingFileSink) (log : RollingLog) (w : World)
          (es : Entries) (l : Logger B rotatings)
          → (host.format str args).thrown ≡ none
          → length (host.format str args).out < 2 ^ 61
          → Holds s es log
          → s.next_index + 1 < max_idx
          → Ready B L host rotatings S (s, tt) l
          → Rolled s es
              (roll s.max_size s.max_files
                (line_at host S w.readings lvl (host.format str args).out)
                log)
              1
              w
              (say B host rotatings lvl str args (l, over w es))
      unfolding message
      say-Rolled str args s log w es l fine small holds room h =
          let fmt = host.format str args in
          let t = host.clock w.readings in
          let line = line_at host S w.readings lvl fmt.out in
          let msg = message (env host) S t host.thread lvl fmt.out in
          let range = line-IsRange host S w.readings lvl fmt.out short small in
          let step = write-Stepped s es log msg holds range room in
          let e = given-rotating fmt.out line s log w es step in
          let said =
            log-Said B L host rotatings proper S lvl known short fmt fmt.out (over w es) fine refl h
              passes (ap (λ z. z.0) e) in
          record {
            sink = step.sink;
            entries = step.entries;
            returns = said.returns;
            world = said.world ∙ ap (λ z. z.1.1) e;
            holds = step.holds;
            same_limits = step.same_limits;
            same_base = step.same_base;
            index = step.index;
            others = step.others;
            ready = rw (ap (λ z. z.1.0) (sym e)) said.ready;
          }

      -- A loop of calls: the log takes their lines, in order.
      pub for_range-Rolled :
          (str : Bytes) (args : ℕ → List Arg) (n i : ℕ) (s : RotatingFileSink) (log : RollingLog)
          (w : World) (es : Entries) (l : Logger B rotatings)
          → ((k : ℕ) → (host.format str (args k)).thrown ≡ none)
          → ((k : ℕ) → length (host.format str (args k)).out < 2 ^ 61)
          → Holds s es log
          → s.next_index + n < max_idx
          → Ready B L host rotatings S (s, tt) l
          → Rolled s es
              (roll_lines s.max_size s.max_files (line_list host S lvl str args n i w.readings) log)
              n
              w
              (for_range n i (λ k. say B host rotatings lvl str (args k)) (l, over w es))
      unfolding for_range line_list roll_lines
      for_range-Rolled str args zero i s log w es l fine small holds room h = record {
        sink = s;
        entries = es;
        returns = refl;
        world = ap (λ r. over (record w { readings = r }) es) (omega arith);
        holds = holds;
        same_limits = (refl, refl);
        same_base = refl;
        index = omega arith;
        others = λ q foreign. refl;
        ready = h;
      }
      for_range-Rolled str args (suc n) i s log w es l fine small holds room h =
          let line = line_at host S w.readings lvl (host.format str (args i)).out in
          let next = roll s.max_size s.max_files line log in
          let lines = line_list host S lvl str args n (i + 1) (w.readings + 1) in
          let first =
            say-Rolled str (args i) s log w es l (fine i) (small i) holds (omega arith) h in
          let rest =
            for_range-Rolled str args n (i + 1) first.sink next (ticked host w) first.entries _ fine
              small first.holds (omega (arith, first.index)) first.ready in
          let body : ℕ → Exec (Logger B rotatings × World) Done =
            λ k. say B host rotatings lvl str (args k) in
          let behind =
            and_then (λ _. for_range n (i + 1) body) (body i (l, over w es)) first.returns
              first.world in
          record {
            sink = rest.sink;
            entries = rest.entries;
            returns = ap (λ z. z.0) behind ∙ rest.returns;
            world =
                ap (λ z. z.1.1) behind
                ∙ rest.world
                ∙ ap (λ r. over (record w { readings = r }) rest.entries) (omega arith);
            holds =
                same_log-Holds
                  (ap (λ k. roll_lines k first.sink.max_files lines next) first.same_limits.0
                    ∙ ap (λ k. roll_lines s.max_size k lines next) first.same_limits.1)
                  rest.holds;
            same_limits = (
              rest.same_limits.0 ∙ first.same_limits.0,
              rest.same_limits.1 ∙ first.same_limits.1,
            );
            same_base = rest.same_base ∙ first.same_base;
            index = omega (arith, first.index, rest.index);
            others =
                λ q foreign. rest.others q (rw first.same_base foreign) ∙ first.others q foreign;
            ready = rw behind rest.ready;
          }
