-- ===== src/Logger/Spec.antt =====
-- What a logger promises, with no buffer, no cached header and no offsets in it: each call that
-- passes the level hands one message, made from the documented header, to the sinks in order.
use spdlite.Base.{ℕ, List, [], ◌∷◌, ◌++◌, Bytes, codes, Bool, none, some, if◌then◌else◌}
use spdlite.Base.Int.{pos}
use spdlite.Base.Exec.{
  Result, ok, fail, std_exception, other_exception, aborted, terminated, Exec, Done,
}
use spdlite.Level.{Level, at_least}
use spdlite.Level.Order.{tag}
use spdlite.Message.{LogMsg}
use spdlite.Sink.{Sink, Tuple}
use spdlite.Buffer.{MemoryBuf}
use spdlite.Formatter.{FormatOptions}
use spdlite.Formatter.Layout.{header_text, tag_offset}
use spdlite.Logger.{Env, Formatting, Logger}

-- The settings of a logger.
pub record Settings : Type 0 where
  pub name : Bytes
  pub log_level : Level
  pub flush_level : Level
  pub opts : FormatOptions

abbrev pub newline : Bool → Bytes
newline windows = if windows then 13 ∷ 10 ∷ [] else 10 ∷ []

module _ {W : Type 0} (env : Env W) (s : Settings) (t raw : ℕ) (lvl : Level) where
  abbrev pub header : Bytes
  header = header_text env.libc s.opts s.name t (tag lvl) raw

  unfoldable pub message : Bytes → LogMsg
  message payload = record {
    time = pos t;
    logger_name = s.name;
    log_level = lvl;
    formatted = header ++ (payload ++ newline env.windows);
    payload = payload;
    level_offset = tag_offset s.opts s.name;
  }

module _ {W : Type 0} where
  -- From the first sink to the last, until one throws; the sinks behind that one stay as they are.
  unfoldable pub in_order :
      (ss : List (Sink W)) → ((s : Sink W) → Exec (s.State × W) Done) → Exec (Tuple ss × W) Done
  in_order [] act p = (ok tt, p)
  in_order (s ∷ ss) act ((x, xs), w) =
      let (r, (x', w')) = act s (x, w) in
      let (r', (xs', w'')) = in_order ss act (xs, w') in
      elim r [ ok _ ↦ (r', ((x', xs'), w'')) | fail e ↦ (fail e, ((x', xs), w')) ]

  -- Every sink writes the message, and then every sink flushes if the level asks for it.
  unfoldable pub hand_over : (ss : List (Sink W)) → Bool → LogMsg → Exec (Tuple ss × W) Done
  hand_over ss flushes msg p =
      let (r, q) = in_order ss (λ s. s.write msg) p in
      elim r [
        | ok _ ↦ (if flushes then in_order ss (λ s. s.flush) q else (ok tt, q))
        | fail e ↦ (fail e, q)
      ]

  -- An exception ends as one line on stderr, with its text if it is a standard one; only the end of
  -- the program goes on.
  unfoldable pub reported : {X : Type 0} → Env W → Result Done × (X × W) → Result Done × (X × W)
  reported env (ok _, p) = (ok tt, p)
  reported env (fail (std_exception what), (x, w)) =
      (ok tt, (x, env.report (codes "spdlite: log error: " ++ what ++ 10 ∷ []) w))
  reported env (fail other_exception, (x, w)) =
      (ok tt, (x, env.report (codes "spdlite: unknown log error" ++ 10 ∷ []) w))
  reported env (fail aborted, p) = (fail aborted, p)
  reported env (fail terminated, p) = (fail terminated, p)

module _ (B : MemoryBuf) {W : Type 0} (ss : List (Sink W)) where
  abbrev pub settings : Logger B ss → Settings
  settings l = record {
    name = l.name;
    log_level = l.log_level;
    flush_level = l.flush_level;
    opts = l.formatter.opts;
  }

  module _ (env : Env W) (s : Settings) (t raw : ℕ) (lvl : Level) where
    -- The message goes to the sinks; an exception of theirs is reported and swallowed.
    abbrev pub send : Bytes → Exec (Tuple ss × W) Done
    send payload p =
        reported env (hand_over ss (at_least lvl s.flush_level) (message env s t raw lvl payload) p)

    -- Formatting may fail after a part of the payload: then no sink sees the message.
    abbrev pub send_formatted : Formatting → Exec (Tuple ss × W) Done
    send_formatted fmt p = elim fmt.thrown [
      | none ↦ send fmt.out p
      | some e ↦ reported env (fail e, p)
    ]
