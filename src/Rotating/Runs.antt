-- ===== src/Rotating/Runs.antt =====
-- Whole runs of a rotating sink (include/spdlite/sinks/rotating_file_sink.h) against the log.
use spdlite.Base.{
  ℕ, ◌+◌, ◌<◌, ◌≤◌, ◌≡◌, refl, sym, ap, ◌∙◌, arith, List, [], ◌∷◌, length, IsRange, Bool-cases, inl,
  inr,
}
use spdlite.Base.Exec.{Exec, Done, Result, ok, pure, ◌>>◌}
use spdlite.Message.{LogMsg}
use spdlite.Disk.{FilePath, Entries, lookup}
use spdlite.Rotating.Foreign.{IsForeign}
use spdlite.Rotating.{RotatingFileSink, S, write}
use spdlite.Rotating.Names.{max_idx}
use spdlite.Rotating.Steps.{calm}
use spdlite.Rotating.Log.{RollingLog, roll}
use spdlite.Rotating.Refine.{Holds, Stepped, appended, rotates, grows}

-- One write of a rotating sink on a calm disk is one step of the rolling log, and uses at most one
-- index. The line is shorter than 2^63 bytes, and the next index is below SIZE_MAX - 1.
pub write-Stepped :
    (r : RotatingFileSink) (es : Entries) (log : RollingLog) (msg : LogMsg)
    → Holds r es log
    → IsRange msg.formatted
    → r.next_index + 1 < max_idx
    → Stepped r es msg.formatted log (write msg (r, calm es))
unfolding write
write-Stepped r es log msg h range room = elim (Bool-cases (grows r es log msg.formatted h range)) [
  | inl full ↦ rotates r es log msg.formatted h range full room
  | inr fits ↦ appended r es log msg.formatted h range fits
]

unfoldable pub write_each : List LogMsg → Exec S Done
write_each [] = pure tt
write_each (msg ∷ msgs) = write msg >> write_each msgs

unfoldable pub roll_each : ℕ → ℕ → List LogMsg → RollingLog → RollingLog
roll_each max_size max_files [] log = log
roll_each max_size max_files (msg ∷ msgs) log =
    roll_each max_size max_files msgs (roll max_size max_files msg.formatted log)

-- Every message is shorter than half of the address space.
unfoldable pub AllInRange : List LogMsg → Type 0
AllInRange [] = Unit
AllInRange (msg ∷ msgs) = IsRange msg.formatted × AllInRange msgs

-- The outcome of a run: it ends normally, and what it leaves holds `log`.
pub record Ran (r : RotatingFileSink) (es : Entries) (n : ℕ) (log : RollingLog)
    (out : Result Done × S) : Type 0 where
  pub sink : RotatingFileSink
  pub entries : Entries
  pub returns : out ≡ (ok tt, (sink, calm entries))
  pub holds : Holds sink entries log
  pub same_base : sink.base_filename ≡ r.base_filename
  pub index : sink.next_index ≤ r.next_index + n
  pub others : (q : FilePath) → IsForeign r.base_filename q → lookup q entries ≡ lookup q es

pub same_log-Holds :
    {r : RotatingFileSink} {es : Entries} {log log' : RollingLog}
    → log ≡ log'
    → Holds r es log
    → Holds r es log'
same_log-Holds e h = rw (sym e) h

-- When no call of the file system fails, any run of writes of a rotating sink that holds a log ends
-- normally, and sink and directory then hold the rolling log of those lines: the active file with
-- its size, and exactly the newest max_files archives under their indices. Each line is shorter
-- than 2^63 bytes, and the indices stay below SIZE_MAX.
pub write_each-Ran :
    (msgs : List LogMsg) (r : RotatingFileSink) (es : Entries) (log : RollingLog)
    → Holds r es log
    → AllInRange msgs
    → r.next_index + length msgs < max_idx
    → Ran r es
        (length msgs)
        (roll_each r.max_size r.max_files msgs log)
        (write_each msgs (r, calm es))
unfolding write_each roll_each AllInRange
write_each-Ran [] r es log h range room = record {
  sink = r;
  entries = es;
  returns = refl;
  holds = h;
  same_base = refl;
  index = omega arith;
  others = λ q foreign. refl;
}
write_each-Ran (msg ∷ msgs) r es log h (range, ranges) room =
    let step = write-Stepped r es log msg h range (omega arith) in
    let next = roll r.max_size r.max_files msg.formatted log in
    let rest =
      write_each-Ran msgs step.sink step.entries next step.holds ranges
        (omega (arith, step.index)) in
    record {
      sink = rest.sink;
      entries = rest.entries;
      returns = rw step.returns rest.returns;
      holds =
          same_log-Holds
            (ap (λ k. roll_each k step.sink.max_files msgs next) step.same_limits.0
              ∙ ap (λ k. roll_each r.max_size k msgs next) step.same_limits.1)
            rest.holds;
      same_base = rest.same_base ∙ step.same_base;
      index = omega (arith, step.index, rest.index);
      others = λ q foreign. rest.others q (rw step.same_base foreign) ∙ step.others q foreign;
    }
