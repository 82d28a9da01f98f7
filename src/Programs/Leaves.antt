-- ===== src/Programs/Leaves.antt =====
-- Programs that make a file sink and a logger on it, use them and end.
use spdlite.Base.{ℕ, ◌+◌, ◌≡◌, refl, ◌∙◌, [], Bytes, false, some}
use spdlite.Base.Exec.{Result, ok, Exec, Done, ◌>>=◌}
use spdlite.Level.{info, off}
use spdlite.Buffer.{MemoryBuf, IsLawful}
use spdlite.Formatter.{default_options}
use spdlite.Disk.{FilePath, regular, Entries, lookup, put, same_file}
use spdlite.FileSink.{truncate}
use spdlite.FileSink.Text.{kept, file_sink-calm}
use spdlite.Logger.{Logger, logger}
use spdlite.Logger.Setters.{logger-IsValid}
use spdlite.Logger.Spec.{Settings}
use spdlite.Programs.{Host, World, env, make_file, scope}
use spdlite.Programs.Said.{Ready}
use spdlite.Programs.Files.{over, Logged, sinks_of, put_here, put_others, files}

-- A program that ends normally, with `text` in the file `p`, no other file changed, and the rest of
-- the world as it was, after `n` readings of the clock.
pub record Leaves (p : FilePath) (text : Bytes) (n : ℕ) (w : World) (es : Entries)
    (out : Result Done × World) : Type 0 where
  pub entries : Entries
  pub returns : out.0 ≡ ok tt
  pub world : out.1 ≡ over (record w { readings = w.readings + n }) entries
  pub text_is : lookup p entries ≡ some (regular text)
  pub others : (q : FilePath) → same_file p q ≡ false → lookup q entries ≡ lookup q es

-- The settings of a new logger.
abbrev pub new_settings : Bytes → Settings
new_settings name = record {
  name = name;
  log_level = info;
  flush_level = off;
  opts = default_options;
}

module _ (B : MemoryBuf) (L : IsLawful B) (host : Host) where
  pub new-Ready :
      (name : Bytes) (p : FilePath)
      → Ready B L host
          (files B L host)
          (new_settings name)
          (sinks_of B L host p)
          (logger B (files B L host) name (sinks_of B L host p))
  unfolding logger
  new-Ready name p =
      let (valid, same) =
        logger-IsValid B L (files B L host) (env host) name (sinks_of B L host p) in
      record { valid = valid; same = same; has = refl }

  -- A file that is opened empty, and a logger on it that logs `text`.
  pub file_program :
      (name : Bytes) (p : FilePath) (body : Exec (Logger B (files B L host) × World) Done)
      (text : Bytes) (n : ℕ) (w : World) (es : Entries)
      → kept truncate (lookup p es) ≡ some []
      → ((es' : Entries)
          → lookup p es' ≡ some (regular [])
          → Logged B L host
              (new_settings name)
              p
              text
              n
              w
              es'
              (body (logger B (files B L host) name (sinks_of B L host p), over w es')))
      → Leaves p text n w es (
          (make_file p truncate >>= λ s. scope (logger B (files B L host) name (s, tt)) body)
            (over w es))
  file_program name p body text n w es h run = rw (file_sink-calm p truncate es [] h) (
      let logged = run (put p (regular []) es) (put_here p (regular []) es) in
      record {
        entries = logged.entries;
        returns = logged.returns;
        world = logged.world;
        text_is = logged.text_is;
        others =
            λ q different. logged.others q different ∙ put_others p q (regular []) es different;
      })
