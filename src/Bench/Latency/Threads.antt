-- ===== src/Bench/Latency/Threads.antt =====
-- The benchmark of one file from several threads (bench/latency.cpp): the lines that its threads
-- leave in the file, whatever their interleaving.
use spdlite.Base.{
  ℕ, zero, suc, ◌+◌, ◌≡◌, refl, sym, ap, ◌∙◌, List, [], ◌∷◌, ◌++◌, append_assoc, append-nil, Bytes,
  Bool, true, false, none, some,
}
use spdlite.Base.Int.{pos, pos_part}
use spdlite.Base.Exec.{ok}
use spdlite.Level.{Level, info, at_least}
use spdlite.Sink.{write_all, flush_all, for_each}
use spdlite.Buffer.{MemoryBuf, IsLawful}
use spdlite.Disk.{FilePath, regular, Entries, lookup, put, same_file}
use spdlite.FileSink.Text.{write-calm}
use spdlite.Logger.{dispatch}
use spdlite.Logger.Handed.{dispatch-hand_over}
use spdlite.Logger.Spec.{Settings, header, message, hand_over}
use spdlite.Threads.{Calls}
use spdlite.Threads.History.{Every, EveryMade}
use spdlite.Logger.Locked.{
  LockedCall, log_view, log_format, rename, set_options, flush_sinks, locked_calls,
}
use spdlite.Logger.Locked.Messages.{View, spec_call, spec_calls}
use spdlite.Programs.{Host, World, env}
use spdlite.Programs.Files.{over, files, sinks_of, put_others, put_here}
use spdlite.Bench.Latency.{hello_text, counter}

-- The readings of the clock and the ids of the threads: `time i k` is what thread `i` reads in its
-- round `k`.
pub record Threads : Type 0 where
  pub time : ℕ → ℕ → ℕ
  pub id : ℕ → ℕ

module _ (host : Host) (T : Threads) where
  -- `log.info("Hello logger: ...", ++i)` of a logger on info, from the lock on.
  abbrev pub hello : ℕ → ℕ → LockedCall
  hello i k =
      log_format (record { now = pos (T.time i k); thread = T.id i }) info
        (host.format hello_text (counter k))

  -- The calls of thread `i` in `n` rounds from round `k` on.
  unfoldable pub rounds : ℕ → ℕ → ℕ → List LockedCall
  rounds i zero k = []
  rounds i (suc n) k = hello i k ∷ rounds i n (k + 1)

  -- The line of a call that formats a message.
  abbrev pub line : Settings → LockedCall → Bytes
  line S (log_format call lvl fmt) =
      header (env host) S (pos_part call.now) call.thread lvl ++ (fmt.out ++ 10 ∷ [])
  line S _ = []

  -- The lines of these calls.
  unfoldable pub lines : Settings → List (ℕ × LockedCall) → Bytes
  lines S [] = []
  lines S ((i, c) ∷ h) = line S c ++ lines S h

  module _ (B : MemoryBuf) (L : IsLawful B) where
    abbrev pub K : Calls
    K = locked_calls B (files B L host) (env host)

    dispatched :
        (S : Settings) (t raw : ℕ) (lvl : Level) (payload : Bytes) (flushes : Bool) (p : FilePath)
        (w : World) (es : Entries) (old : Bytes)
        → lookup p es ≡ some (regular old)
        → dispatch B
            (files B L host)
            (env host)
            flushes
            (message (env host) S t raw lvl payload)
            (sinks_of B L host p, over w es)
          ≡ (
            ok tt,
            (
              sinks_of B L host p,
              over w (
                  put p
                    (regular (old ++ (header (env host) S t raw lvl ++ (payload ++ 10 ∷ []))))
                    es),
            ),
          )
    unfolding dispatch write_all flush_all for_each message
    dispatched S t raw lvl payload true p w es old at = rw (write-calm p es old _ at) refl
    dispatched S t raw lvl payload false p w es old at = rw (write-calm p es old _ at) refl

    handed :
        (S : Settings) (t raw : ℕ) (lvl : Level) (payload : Bytes) (flushes : Bool) (p : FilePath)
        (w : World) (es : Entries) (old : Bytes)
        → lookup p es ≡ some (regular old)
        → hand_over
            (files B L host)
            flushes
            (message (env host) S t raw lvl payload)
            (sinks_of B L host p, over w es)
          ≡ (
            ok tt,
            (
              sinks_of B L host p,
              over w (
                  put p
                    (regular (old ++ (header (env host) S t raw lvl ++ (payload ++ 10 ∷ []))))
                    es),
            ),
          )
    handed S t raw lvl payload flushes p w es old at =
        sym (
          dispatch-hand_over B (files B L host) (env host) flushes
            (message (env host) S t raw lvl payload) (sinks_of B L host p, over w es))
        ∙ dispatched S t raw lvl payload flushes p w es old at

    -- A call whose formatting does not throw.
    abbrev pub IsLine : LockedCall → Type 0
    IsLine (log_format call lvl fmt) = fmt.thrown ≡ none
    IsLine _ = ⊥

    pub rounds-Every :
        (P : LockedCall → Type 0) (i n k : ℕ) → ((k : ℕ) → P (hello i k)) → Every K P (rounds i n k)
    unfolding rounds
    rounds-Every P i zero k each = tt
    rounds-Every P i (suc n) k each = (each k, rounds-Every P i n (k + 1) each)

    -- The file `p` has the text, no other file has changed, and neither have the settings.
    pub record Grown (S : Settings) (p : FilePath) (text : Bytes) (w : World) (es : Entries)
        (v : View B (files B L host) (env host)) : Type 0 where
      pub entries : Entries
      pub shows : v ≡ (S, (sinks_of B L host p, over w entries))
      pub text_is : lookup p entries ≡ some (regular text)
      pub others : (q : FilePath) → same_file p q ≡ false → lookup q entries ≡ lookup q es

    one-Grown :
        (S : Settings) (c : LockedCall) (p : FilePath) (w : World) (es : Entries) (old : Bytes)
        → IsLine c
        → lookup p es ≡ some (regular old)
        → Grown S p
            (old ++ line S c)
            w
            es
            (spec_call B (files B L host) (env host) c (S, (sinks_of B L host p, over w es)))
    one-Grown S (log_format call lvl fmt) p w es old fine at = rw fine (record {
      entries = put p (regular (old ++ line S (log_format call lvl fmt))) es;
      shows =
          ap (λ z. (S, z.1))
            (handed S (pos_part call.now) call.thread lvl fmt.out (at_least lvl S.flush_level) p w
              es old at);
      text_is = put_here p _ es;
      others = λ q different. put_others p q _ es different;
    })
    one-Grown S (log_view call lvl sv) p w es old fine at = absurd fine
    one-Grown S (rename name) p w es old fine at = absurd fine
    one-Grown S (set_options o) p w es old fine at = absurd fine
    one-Grown S flush_sinks p w es old fine at = absurd fine

    pub spec_calls-Grown :
        (S : Settings) (h : List (ℕ × LockedCall)) (p : FilePath) (w : World) (es : Entries)
        (old : Bytes)
        → EveryMade K IsLine h
        → lookup p es ≡ some (regular old)
        → Grown S p
            (old ++ lines S h)
            w
            es
            (spec_calls B (files B L host) (env host) h (S, (sinks_of B L host p, over w es)))
    unfolding spec_calls lines
    spec_calls-Grown S [] p w es old made at = record {
      entries = es;
      shows = refl;
      text_is = at ∙ ap (λ s. some (regular s)) (sym (append-nil old));
      others = λ q different. refl;
    }
    spec_calls-Grown S ((i, c) ∷ h) p w es old (fine, made) at =
        let first = one-Grown S c p w es old fine at in
        let rest = spec_calls-Grown S h p w first.entries (old ++ line S c) made first.text_is in
        record {
          entries = rest.entries;
          shows = ap (spec_calls B (files B L host) (env host) h) first.shows ∙ rest.shows;
          text_is =
              rest.text_is ∙ ap (λ s. some (regular s)) (append_assoc old (line S c) (lines S h));
          others = λ q different. rest.others q different ∙ first.others q different;
        }
