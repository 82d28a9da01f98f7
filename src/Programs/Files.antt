-- ===== src/Programs/Files.antt =====
-- Loggers with a file sink (include/spdlite/logger.h, include/spdlite/sinks/file_sink.h) in
-- programs: what the file and the rest of the world are after their calls.
use spdlite.Base.{
  ℕ, zero, suc, ◌+◌, ◌^◌, ◌<◌, ◌≤◌, ◌≡◌, ◌≢◌, refl, sym, ap, ◌∙◌, arith, List, [], ◌∷◌, ◌++◌,
  append_assoc, append-nil, Bytes, Bool, true, false, none, some, if_true, if_false, IsRange,
  length, length-append,
}
use spdlite.Base.Exec.{Result, ok, Exec, Done, continue}
use spdlite.Level.{Level, n_levels, at_least}
use spdlite.Formatter.Widths.{header_bound}
use spdlite.Sink.{Sink, Tuple, write_all, flush_all, for_each}
use spdlite.Buffer.{MemoryBuf, IsLawful}
use spdlite.Disk.{FilePath, Node, regular, Entries, lookup, put, same_file}
use spdlite.Disk.Laws.{lookup-put, same_file_refl}
use spdlite.FileSink.Text.{calm, write-calm}
use spdlite.Logger.{Logger, dispatch}
use spdlite.Logger.Spec.{Settings, message, header}
use spdlite.Programs.{Arg, Host, World, env, ticked, on_disk, file, say, for_range}
use spdlite.Programs.Said.{Proper, Ready, Said, given, and_then, log-Said}

-- A world with these files, where no call of the file system fails.
abbrev pub over : World → Entries → World
over w es = record w { disk = calm es }

-- The line of the call that makes the reading `k` of the clock.
abbrev pub line_at : Host → Settings → ℕ → Level → Bytes → Bytes
line_at host S k lvl payload =
    header (env host) S (host.clock k) host.thread lvl ++ (payload ++ 10 ∷ [])

-- A line of a short payload is a byte range.
pub line-IsRange :
    (host : Host) (S : Settings) (k : ℕ) (lvl : Level) (payload : Bytes)
    → length S.name < 2 ^ 62
    → length payload < 2 ^ 61
    → IsRange (line_at host S k lvl payload)
line-IsRange host S k lvl payload short small =
    let head = header (env host) S (host.clock k) host.thread lvl in
    let parts : length (line_at host S k lvl payload) ≡ length head + (length payload + 1) =
      length-append head (payload ++ 10 ∷ [])
      ∙ ap (λ n. length head + n) (length-append payload (10 ∷ [])) in
    let bound : length head ≤ length S.name + 70 =
      header_bound host.libc S.opts S.name (host.clock k) host.thread lvl in
    omega (arith, parts, bound, short)

pub put_others :
    (p q : FilePath) (n : Node) (es : Entries)
    → same_file p q ≡ false
    → lookup q (put p n es) ≡ lookup q es
put_others p q n es different = lookup-put p q n es ∙ if_false _ different

pub put_here : (p : FilePath) (n : Node) (es : Entries) → lookup p (put p n es) ≡ some n
put_here p n es = lookup-put p p n es ∙ if_true _ (same_file_refl p)

module _ (B : MemoryBuf) (L : IsLawful B) (host : Host) where
  abbrev pub files : List (Sink World)
  files = on_disk file ∷ []

  abbrev pub sinks_of : FilePath → Tuple files
  sinks_of p = (record { filename = p }, tt)

  -- The file behind the sink grows by the line.
  pub given-files :
      (S : Settings) (lvl : Level) (payload : Bytes) (p : FilePath) (w : World) (es : Entries)
      (old : Bytes)
      → lookup p es ≡ some (regular old)
      → given B L host files S lvl payload (sinks_of p) (over w es) ≡ (
        ok tt,
        (
          sinks_of p,
          over (ticked host w) (put p (regular (old ++ line_at host S w.readings lvl payload)) es),
        ),
      )
  unfolding dispatch write_all flush_all for_each message
  given-files S lvl payload p w es old at = by_flush (at_least lvl S.flush_level)
    where
      by_flush :
          (flushes : Bool)
          → dispatch B files
              (env host)
              flushes
              (message (env host) S (host.clock w.readings) host.thread lvl payload)
              (sinks_of p, ticked host (over w es))
            ≡ (
              ok tt,
              (
                sinks_of p,
                over
                    (ticked host w)
                    (put p (regular (old ++ line_at host S w.readings lvl payload)) es),
              ),
            )
      by_flush true = rw (write-calm p es old _ at) refl
      by_flush false = rw (write-calm p es old _ at) refl

  -- The lines of `n` calls of `say` from the argument `i` and the reading `r` on.
  unfoldable pub lines_from : Settings → Level → Bytes → (ℕ → List Arg) → ℕ → ℕ → ℕ → Bytes
  lines_from S lvl str args zero i r = []
  lines_from S lvl str args (suc n) i r =
      line_at host S r lvl (host.format str (args i)).out
      ++ lines_from S lvl str args n (i + 1) (r + 1)

  -- Calls of a logger that end normally, with `text` in the file `p`, and no other file changed.
  pub record Logged (S : Settings) (p : FilePath) (text : Bytes) (n : ℕ) (w : World) (es : Entries)
      (out : Result Done × (Logger B files × World)) : Type 0 where
    pub entries : Entries
    pub returns : out.0 ≡ ok tt
    pub world : out.1.1 ≡ over (record w { readings = w.readings + n }) entries
    pub text_is : lookup p entries ≡ some (regular text)
    pub others : (q : FilePath) → same_file p q ≡ false → lookup q entries ≡ lookup q es
    pub ready : Ready B L host files S (sinks_of p) out.1.0

  module _ (proper : Proper host) (S : Settings) (lvl : Level) (known : lvl ≢ n_levels)
      (short : length S.name < 2 ^ 62) (passes : at_least lvl S.log_level ≡ true) where
    -- A call that the sinks have taken.
    write-Logged :
        (payload : Bytes) (p : FilePath) (w : World) (es : Entries) (old : Bytes)
        (out : Result Done × (Logger B files × World))
        → lookup p es ≡ some (regular old)
        → Said B L host files S lvl payload (sinks_of p) (over w es) out
        → Logged S p (old ++ line_at host S w.readings lvl payload) 1 w es out
    write-Logged payload p w es old out at said =
        let node = regular (old ++ line_at host S w.readings lvl payload) in
        let e = given-files S lvl payload p w es old at in
        record {
          entries = put p node es;
          returns = said.returns;
          world = said.world ∙ ap (λ z. z.1.1) e;
          text_is = put_here p node es;
          others = λ q different. put_others p q node es different;
          ready = rw (ap (λ z. z.1.0) (sym e)) said.ready;
        }

    say-Logged :
        (str : Bytes) (args : List Arg) (p : FilePath) (w : World) (es : Entries) (old : Bytes)
        (l : Logger B files)
        → (host.format str args).thrown ≡ none
        → lookup p es ≡ some (regular old)
        → Ready B L host files S (sinks_of p) l
        → Logged S p
            (old ++ line_at host S w.readings lvl (host.format str args).out)
            1
            w
            es
            (say B host files lvl str args (l, over w es))
    say-Logged str args p w es old l fine at h =
        let fmt = host.format str args in
        write-Logged fmt.out p w es old _ at (
          log-Said B L host files proper S lvl known short fmt fmt.out (over w es) fine refl h
            passes (ap (λ z. z.0) (given-files S lvl fmt.out p w es old at)))

    -- A loop of calls: the file grows by their lines, in order.
    pub for_range-Logged :
        (str : Bytes) (args : ℕ → List Arg) (n i : ℕ) (p : FilePath) (w : World) (es : Entries)
        (old : Bytes) (l : Logger B files)
        → ((k : ℕ) → (host.format str (args k)).thrown ≡ none)
        → lookup p es ≡ some (regular old)
        → Ready B L host files S (sinks_of p) l
        → Logged S p
            (old ++ lines_from S lvl str args n i w.readings)
            n
            w
            es
            (for_range n i (λ k. say B host files lvl str (args k)) (l, over w es))
    unfolding for_range lines_from
    for_range-Logged str args zero i p w es old l fine at h = record {
      entries = es;
      returns = refl;
      world = ap (λ r. over (record w { readings = r }) es) (omega arith);
      text_is = at ∙ ap (λ s. some (regular s)) (sym (append-nil old));
      others = λ q different. refl;
      ready = h;
    }
    for_range-Logged str args (suc n) i p w es old l fine at h =
        let first = say-Logged str (args i) p w es old l (fine i) at h in
        let rest =
          for_range-Logged str args n (i + 1) p (ticked host w) first.entries _ _ fine first.text_is
            first.ready in
        record {
          entries = rest.entries;
          returns = ap (λ z. z.0) (behind first) ∙ rest.returns;
          world =
              ap (λ z. z.1.1) (behind first)
              ∙ rest.world
              ∙ ap (λ r. over (record w { readings = r }) rest.entries) (omega arith);
          text_is = rest.text_is ∙ ap (λ s. some (regular s)) (append_assoc old _ _);
          others = λ q different. rest.others q different ∙ first.others q different;
          ready = rw (behind first) rest.ready;
        }
      where
        body : ℕ → Exec (Logger B files × World) Done
        body k = say B host files lvl str (args k)

        behind :
            {t : Bytes} (one : Logged S p t 1 w es (body i (l, over w es)))
            → continue
                (body i (l, over w es)).0
                (λ _. for_range n (i + 1) body)
                (body i (l, over w es)).1
              ≡ for_range n
                  (i + 1)
                  body
                  ((body i (l, over w es)).1.0, over (ticked host w) one.entries)
        behind one =
            and_then (λ _. for_range n (i + 1) body) (body i (l, over w es)) one.returns one.world
