-- ===== src/Bench/Latency/Interleaved.antt =====
-- The benchmark of one file from several threads (bench/latency.cpp): all its threads at once, in any
-- interleaving.
use spdlite.Base.{
  ℕ, ◌≤◌, ◌<◌, ◌/◌, ◌≡◌, refl, sym, ap, ◌∙◌, arith, List, [], ◌∷◌, ◌++◌, append-nil, Bytes, Bool,
  true, false, none, some, codes, ltb, ltb→lt, length, ◌^◌, if◌then◌else◌,
}
use spdlite.Base.Int.{pos}
use spdlite.Base.Exec.{ok}
use spdlite.Buffer.{MemoryBuf, IsLawful}
use spdlite.Formatter.{break_down}
use spdlite.Formatter.Patch.{InRange}
use spdlite.Disk.{FilePath, regular, Entries, lookup, put, same_file}
use spdlite.FileSink.{truncate}
use spdlite.FileSink.Text.{kept, file_sink-calm}
use spdlite.Logger.{Logger, logger}
use spdlite.Logger.Setters.{logger-IsValid}
use spdlite.Threads.{Calls, calls_of, Reach, System, Later}
use spdlite.Threads.History.{Every, order-EveryMade}
use spdlite.Threads.Progress.{all_calls_made, Finished-free}
use spdlite.Logger.Locked.{LockedCall, locked_calls}
use spdlite.Logger.Locked.Messages.{spec_calls, view_of, IsProper}
use spdlite.Logger.Locked.Refine.{logger-messages}
use spdlite.Logger.Locked.Serial.{every_call_guards}
use spdlite.Programs.{Host, World, env}
use spdlite.Programs.Files.{over, files, sinks_of, put_others, put_here}
use spdlite.Programs.Leaves.{new_settings}
use spdlite.Bench.Latency.{hello_text, counter, bench, in_bench_dir, make_basic_file_mt}
use spdlite.Bench.Latency.Threads.{
  Threads, hello, rounds, lines, IsLine, rounds-Every, spec_calls-Grown,
}

module _ (host : Host) (T : Threads) (B : MemoryBuf) (L : IsLawful B) where
  abbrev pub K : Calls
  K = locked_calls B (files B L host) (env host)

  -- The first `n` threads make `m` rounds each.
  abbrev pub threads : ℕ → ℕ → ℕ → List LockedCall
  threads n m i = if ltb i n then rounds host T i m 0 else []

  threads-Every :
      (P : LockedCall → Type 0) (n m i : ℕ)
      → ((i k : ℕ) → P (hello host T i k))
      → Every K P (threads n m i)
  threads-Every P n m i each = by_test (ltb i n)
    where
      by_test : (b : Bool) → Every K P (if b then rounds host T i m 0 else [])
      by_test true = rounds-Every host T B L P i m 0 (each i)
      by_test false = tt

  nothing : (made rest : List LockedCall) → made ++ rest ≡ [] → made ≡ []
  nothing [] rest e = refl
  nothing (c ∷ made) rest e = ground (arith, e)

  -- The calls that were made are all calls, where no thread below `n` has one left.
  all_made :
      (n m i : ℕ) (made rest : List LockedCall)
      → (i < n → rest ≡ [])
      → made ++ rest ≡ threads n m i
      → made ≡ threads n m i
  all_made n m i made rest done order = by_test (ltb i n) refl
    where
      by_test : (b : Bool) → ltb i n ≡ b → made ≡ threads n m i
      by_test true e =
          sym (append-nil made) ∙ ap (λ l. made ++ l) (sym (done (ltb→lt i n e))) ∙ order
      by_test false e =
          let none_due = ap (λ b. if b then rounds host T i m 0 else []) e in
          nothing made rest (order ∙ none_due) ∙ sym none_due

  abbrev pub mt_file : Bytes → FilePath
  mt_file dir = in_bench_dir B host dir (codes "basic_mt.log")

  abbrev pub mt_logger : Bytes → Logger B (files B L host)
  mt_logger dir = logger B (files B L host) bench (sinks_of B L host (mt_file dir))

  abbrev pub opened : Bytes → World → Entries → World
  opened dir w es = over w (put (mt_file dir) (regular []) es)

  -- The clock is a second or more past the epoch, the C library breaks it into fields of their
  -- widths, and the message formats without an exception.
  pub record AsDocumented : Type 0 where
    pub after_epoch : (i k : ℕ) → 1000000000 ≤ T.time i k
    pub in_range :
        (utc : Bool) (i k : ℕ) → InRange (break_down host.libc utc (pos (T.time i k / 1000000000)))
    pub fine : (k : ℕ) → (host.format hello_text (counter k)).thrown ≡ none

  -- The static logger is made on the empty file.
  mt_logger-made :
      (dir : Bytes) (w : World) (es : Entries)
      → kept truncate (lookup (mt_file dir) es) ≡ some []
      → make_basic_file_mt B host dir (over w es) ≡ (ok (mt_logger dir), opened dir w es)
  unfolding make_basic_file_mt
  mt_logger-made dir w es empty = rw (file_sink-calm (mt_file dir) truncate es [] empty) refl

  short : (dir : Bytes) → length (mt_logger dir).name < 2 ^ 62
  unfolding logger
  short dir = omega arith

  shows_start :
      (dir : Bytes) (w : World) (es : Entries)
      → view_of B (files B L host) (env host) (mt_logger dir, opened dir w es)
        ≡ (new_settings bench, (sinks_of B L host (mt_file dir), opened dir w es))
  unfolding logger
  shows_start dir w es =
      ap (λ S. (S, (sinks_of B L host (mt_file dir), opened dir w es)))
        (logger-IsValid B L (files B L host) (env host) bench (sinks_of B L host (mt_file dir))).1

  -- The file has exactly the lines of the calls that took the lock, in their order, and no other
  -- file has changed.
  pub record Logged (dir : Bytes) (n m : ℕ) (w : World) (es : Entries) (t : System K) : Type 0 where
    pub order : (i : ℕ) → calls_of K i t.history ++ t.todo i ≡ threads n m i
    pub text_is :
        lookup (mt_file dir) t.shared.1.disk.entries
        ≡ some (regular (lines host T (new_settings bench) t.history))
    pub others :
        (q : FilePath)
        → same_file (mt_file dir) q ≡ false
        → lookup q t.shared.1.disk.entries ≡ lookup q es
    pub streams : t.shared.1.streams ≡ w.streams

  module _ (documented : AsDocumented) (dir : Bytes) (n m : ℕ) (w : World) (es : Entries) where
    abbrev pub Reached : System K → Type 0
    Reached = Reach K n (mt_logger dir, opened dir w es) (threads n m)

    unlocked-Logged : (t : System K) → Reached t → t.lock ≡ none → Logged dir n m w es t
    unlocked-Logged t r free =
        let start =
          logger-IsValid B L (files B L host) (env host) bench (sinks_of B L host (mt_file dir)) in
        let (shown, order) =
          logger-messages B (files B L host) (env host) L r free start.0 (short dir) (λ i.
            threads-Every (IsProper host.libc) n m i (λ i k. (
              λ e. ground (arith, e),
              record {
                positive = refl;
                after_epoch = documented.after_epoch i k;
                in_range = λ utc. documented.in_range utc i k;
              },
            ))) in
        let fine =
          order-EveryMade K (IsLine host T B L) t.history t.todo (threads n m) order
            (λ i. threads-Every (IsLine host T B L) n m i (λ i k. documented.fine k)) in
        let grown =
          spec_calls-Grown host T B L (new_settings bench) t.history (mt_file dir) w
            (put (mt_file dir) (regular []) es) [] fine (put_here (mt_file dir) (regular []) es) in
        let behind =
          shown
          ∙ ap (spec_calls B (files B L host) (env host) t.history) (shows_start dir w es)
          ∙ grown.shows in
        record {
          order = order;
          text_is = ap (λ v. lookup (mt_file dir) v.1.1.disk.entries) behind ∙ grown.text_is;
          others = λ q different.
              ap (λ v. lookup q v.1.1.disk.entries) behind
              ∙ grown.others q different
              ∙ put_others (mt_file dir) q (regular []) es different;
          streams = ap (λ v. v.1.1.streams) behind;
        }

    -- The benchmark of one file on several threads, step by step in any interleaving: its static
    -- logger is made on the emptied file; whenever the lock is free the file holds exactly the
    -- whole lines of the calls that took the lock, in that order and with each thread's calls in
    -- its own order, and no other file or stream has changed; and from every state that is reached
    -- one comes later where the calls that took the lock are all rounds of all threads. No call of
    -- the file system fails, the file is absent or regular before, the message formats without an
    -- exception, and the clock and the calendar are as documented.
    pub basic_file_mt-lines :
        (t : System K)
        → kept truncate (lookup (mt_file dir) es) ≡ some []
        → Reached t
        → (make_basic_file_mt B host dir (over w es) ≡ (ok (mt_logger dir), opened dir w es))
          × (t.lock ≡ none → Logged dir n m w es t)
          × ((u : System K) × Later K n t u
              × Logged dir n m w es u
              × ((i : ℕ) → calls_of K i u.history ≡ threads n m i))
    basic_file_mt-lines t empty r =
        let guarded = every_call_guards B (files B L host) (env host) in
        let (u, reached, later, done) = all_calls_made K n guarded r in
        let logged = unlocked-Logged u reached (Finished-free K n guarded reached done) in
        (
          mt_logger-made dir w es empty,
          unlocked-Logged t r,
          (
            u,
            later,
            logged,
            λ i.
                all_made n m i (calls_of K i u.history) (u.todo i) (λ lt. (done i lt).1)
                  (logged.order i),
          ),
        )
