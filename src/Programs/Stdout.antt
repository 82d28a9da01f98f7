-- ===== src/Programs/Stdout.antt =====
-- What programs put on stdout (include/spdlite/logger.h, include/spdlite/sinks/console_sink.h).
use spdlite.Base.{
  ℕ, ◌+◌, ◌^◌, ◌<◌, ◌≤◌, ◌≡◌, ◌≢◌, sym, arith, List, [], ◌∷◌, ◌++◌, append-nil, Bytes, none, length,
  length-append,
}
use spdlite.Level.{Level, n_levels, level_width}
use spdlite.Formatter.Layout.{tag_offset}
use spdlite.Formatter.Widths.{length-header_text, length-tag}
use spdlite.Streams.{stdout}
use spdlite.Console.Stdout.{console_text}
use spdlite.Logger.Spec.{Settings, header}
use spdlite.Programs.{Arg, Host, World, env}
use spdlite.Programs.Files.{line_at}

-- The world after `n` readings of the clock and this text on stdout.
abbrev pub printed : Bytes → ℕ → World → World
printed text n w = record w {
  streams = record w.streams { out = w.streams.out ++ text };
  readings = w.readings + n;
}

pub nothing_printed : (w : World) → w ≡ printed [] 0 w
nothing_printed w = λ i. record w {
  streams = record w.streams { out = sym (append-nil w.streams.out) i };
  readings = none_read i;
}
  where
    none_read : w.readings ≡ w.readings + 0
    none_read = omega arith

-- A line as the console shows it.
abbrev pub console_line : Host → Settings → ℕ → Level → Bytes → Bytes
console_line host S k lvl payload =
    console_text (host.is_tty stdout) lvl (tag_offset S.opts S.name) (line_at host S k lvl payload)

-- The format call ends normally with a short text.
abbrev pub Formats : Host → Bytes → List Arg → Type 0
Formats host str args =
    ((host.format str args).thrown ≡ none) × (length (host.format str args).out < 2 ^ 61)

pub tag_inside :
    (host : Host) (S : Settings) (k : ℕ) (lvl : Level) (payload : Bytes)
    → lvl ≢ n_levels
    → tag_offset S.opts S.name + level_width ≤ length (line_at host S k lvl payload)
tag_inside host S k lvl payload known =
    let head = header (env host) S (host.clock k) host.thread lvl in
    omega (
      arith,
      length-append head (payload ++ 10 ∷ []),
      length-header_text host.libc S.opts S.name (host.clock k) host.thread lvl,
      length-tag lvl known,
    )
