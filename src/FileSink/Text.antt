-- ===== src/FileSink/Text.antt =====
-- The text of the file behind a file sink (include/spdlite/sinks/file_sink.h).
use spdlite.Base.{
  ◌≡◌, refl, sym, ap, ◌∙◌, arith, List, [], ◌∷◌, ◌++◌, append_assoc, append-nil, Bytes, Bool, true,
  false, Option, none, some, if◌then◌else◌, if_true,
}
use spdlite.Base.Exec.{Result, ok, fail, Exec, Done, pure, ◌>>◌}
use spdlite.Message.{LogMsg}
use spdlite.Disk.{
  FilePath, Node, regular, symlink, other, Entries, Disk, eq_bytes, lookup, put, fopen,
  fwrite_bytes, append_bytes, succeeds, open_error, directory_error,
}
use spdlite.Disk.Laws.{lookup-put, same_file_refl}
use spdlite.FileSink.{OpenMode, append, truncate, is_truncate, FileSink, file_sink, file_write}

-- What a file that exists keeps; none if it is no log file.
abbrev pub kept : OpenMode → Option Node → Option Bytes
kept mode none = some []
kept append (some (regular s)) = some s
kept truncate (some (regular s)) = some []
kept append (some symlink) = none
kept append (some other) = none
kept truncate (some symlink) = none
kept truncate (some other) = none

unfoldable pub write_each : List LogMsg → Exec (FileSink × Disk) Done
write_each [] = pure tt
write_each (msg ∷ msgs) = file_write msg >> write_each msgs

unfoldable pub joined : List LogMsg → Bytes
joined [] = []
joined (msg ∷ msgs) = msg.formatted ++ joined msgs

abbrev pub calm : Entries → Disk
calm es = record { entries = es; faults = [] }

-- `out` ends normally with the text `s` in the file `p`.
pub record Filled (p : FilePath) (s : Bytes) (out : Result Done × (FileSink × Disk)) : Type 0 where
  pub entries : Entries
  pub returns : out ≡ (ok tt, (record { filename = p }, calm entries))
  pub text : lookup p entries ≡ some (regular s)

pub write-calm :
    (p : FilePath) (es : Entries) (old : Bytes) (msg : LogMsg)
    → lookup p es ≡ some (regular old)
    → file_write msg (record { filename = p }, calm es)
      ≡ (ok tt, (record { filename = p }, calm (put p (regular (old ++ msg.formatted)) es)))
unfolding file_write fwrite_bytes append_bytes
write-calm p es old msg h = rw (h, append_bytes)

write_each-Filled :
    (msgs : List LogMsg) (p : FilePath) (es : Entries) (old : Bytes)
    → lookup p es ≡ some (regular old)
    → Filled p (old ++ joined msgs) (write_each msgs (record { filename = p }, calm es))
unfolding write_each joined
write_each-Filled [] p es old h = record {
  entries = es;
  returns = refl;
  text = h ∙ ap (λ s. some (regular s)) (sym (append-nil old));
}
write_each-Filled (msg ∷ msgs) p es old h =
    let node = regular (old ++ msg.formatted) in
    let rest =
      write_each-Filled msgs p (put p node es) (old ++ msg.formatted)
        (lookup-put p p node es ∙ if_true _ (same_file_refl p)) in
    record {
      entries = rest.entries;
      returns = rw (write-calm p es old msg h) rest.returns;
      text = rest.text ∙ ap (λ s. some (regular s)) (append_assoc old msg.formatted (joined msgs));
    }

some_injective : {a b : Bytes} → some a ≡ some b → a ≡ b
some_injective h = ground arith

pub opening :
    (p : FilePath) (mode : OpenMode) (es : Entries) (start : Bytes) (n : Option Node)
    → lookup p es ≡ n
    → kept mode n ≡ some start
    → fopen (calm es) p (is_truncate mode) ≡ (true, calm (put p (regular start) es))
unfolding fopen
opening p mode es start none at h =
    rw at (ap (λ s. (true, calm (put p (regular s) es))) (some_injective h))
opening p append es start (some (regular s)) at h =
    rw at (ap (λ s. (true, calm (put p (regular s) es))) (some_injective h))
opening p truncate es start (some (regular s)) at h =
    rw at (ap (λ s. (true, calm (put p (regular s) es))) (some_injective h))
opening p append es start (some symlink) at h = ground arith
opening p truncate es start (some symlink) at h = ground arith
opening p append es start (some other) at h = ground arith
opening p truncate es start (some other) at h = ground arith

-- The constructor on a calm disk.
pub file_sink-calm :
    (p : FilePath) (mode : OpenMode) (es : Entries) (start : Bytes)
    → kept mode (lookup p es) ≡ some start
    → file_sink p mode (calm es) ≡ (ok (record { filename = p }), calm (put p (regular start) es))
unfolding file_sink succeeds
file_sink-calm p mode es start h = by_parent (eq_bytes p.parent_path [])
  where
    by_parent :
        (t : Bool)
        → (let made : Bool × Disk = if t then (true, calm es) else succeeds (calm es) in
            let opened = fopen made.1 p (is_truncate mode) in
            let out : Result FileSink × Disk =
              if made.0
              then if opened.0
                then (ok (record { filename = p }), opened.1)
                else (fail (open_error p), opened.1)
              else (fail directory_error, made.1) in
            out ≡ (ok (record { filename = p }), calm (put p (regular start) es)))
    by_parent true = rw (opening p mode es start (lookup p es) refl h) refl
    by_parent false = rw (opening p mode es start (lookup p es) refl h) refl

-- A sink that was made, and the lines after that.
pub record Session (p : FilePath) (mode : OpenMode) (es : Entries) (start : Bytes)
    (msgs : List LogMsg) : Type 0 where
  pub behind : Entries
  pub made : file_sink p mode (calm es) ≡ (ok (record { filename = p }), calm behind)
  pub filled :
      Filled p (start ++ joined msgs) (write_each msgs (record { filename = p }, calm behind))

-- When no call fails, a file sink that is made on an absent or regular file opens it, and after any
-- lines the file is what the mode keeps of it with those lines behind it.
pub file_sink-Session :
    (p : FilePath) (mode : OpenMode) (es : Entries) (start : Bytes) (msgs : List LogMsg)
    → kept mode (lookup p es) ≡ some start
    → Session p mode es start msgs
file_sink-Session p mode es start msgs h = record {
  behind = put p (regular start) es;
  made = file_sink-calm p mode es start h;
  filled =
      write_each-Filled msgs p (put p (regular start) es) start
        (lookup-put p p (regular start) es ∙ if_true _ (same_file_refl p));
}
