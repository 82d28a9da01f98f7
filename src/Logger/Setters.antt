-- ===== src/Logger/Setters.antt =====
-- The constructor, the setters and the move of a logger (include/spdlite/logger.h).
use spdlite.Base.{◌≡◌, refl, List, [], Bytes, ap}
use spdlite.Base.Int.{pos}
use spdlite.Level.{info, off}
use spdlite.Sink.{Sink, Tuple}
use spdlite.Buffer.{MemoryBuf, IsLawful}
use spdlite.Formatter
use spdlite.Formatter.{Formatter, FormatOptions, LibC, default_options, rebuild_header}
use spdlite.Formatter.Cache.{Cached, rebuild_header-Cached, opts-rebuild_header}
use spdlite.Logger.{Env, Logger, logger, move, set_name, set_format_options}
use spdlite.Logger.Spec.{settings}
use spdlite.Logger.Refine.{IsValid}

pub formatter-Cached :
    (c : LibC) (name : Bytes) (o : FormatOptions) → Cached c name (Formatter.formatter name o)
unfolding Formatter.formatter
formatter-Cached c name o =
    rebuild_header-Cached c
      (record {
        opts = o;
        header = [];
        frac_offset = 0;
        tid_offset = 0;
        level_offset = 0;
        last_secs = pos 0;
      })
      name

pub opts-formatter : (name : Bytes) (o : FormatOptions) → (Formatter.formatter name o).opts ≡ o
unfolding Formatter.formatter rebuild_header
opts-formatter name o = refl

module _ (B : MemoryBuf) (L : IsLawful B) {W : Type 0} (ss : List (Sink W)) (env : Env W) where
  -- A new logger is valid, has the default options, and the levels info for logging and off for
  -- flushing.
  pub logger-IsValid :
      (name : Bytes) (xs : Tuple ss)
      → IsValid B L ss env (logger B ss name xs)
        × (settings B ss (logger B ss name xs)
            ≡ record { name = name; log_level = info; flush_level = off; opts = default_options })
  unfolding logger
  logger-IsValid name xs = (
    record { buffer = L.fresh-IsValid; cache = formatter-Cached env.libc name default_options },
    ap (λ o. record { name = name; log_level = info; flush_level = off; opts = o })
        (opts-formatter name default_options),
  )

  -- set_name leaves a valid logger valid, with the new name, and the levels, options and sinks it
  -- had.
  pub set_name-IsValid :
      (l : Logger B ss) (name : Bytes)
      → IsValid B L ss env l
      → IsValid B L ss env (set_name B ss l name)
        × (settings B ss (set_name B ss l name) ≡ record {
          name = name;
          log_level = l.log_level;
          flush_level = l.flush_level;
          opts = l.formatter.opts;
        })
        × ((set_name B ss l name).sinks ≡ l.sinks)
  unfolding set_name Formatter.set_logger_name
  set_name-IsValid l name v = (
    record { buffer = v.buffer; cache = rebuild_header-Cached env.libc l.formatter name },
    ap (λ o. record { name = name; log_level = l.log_level; flush_level = l.flush_level; opts = o })
        (opts-rebuild_header l.formatter name),
    refl,
  )

  -- set_format_options leaves a valid logger valid, with the new options, and the name, levels and
  -- sinks it had.
  pub set_format_options-IsValid :
      (l : Logger B ss) (o : FormatOptions)
      → IsValid B L ss env l
      → IsValid B L ss env (set_format_options B ss l o)
        × (settings B ss (set_format_options B ss l o) ≡ record {
          name = l.name;
          log_level = l.log_level;
          flush_level = l.flush_level;
          opts = o;
        })
        × ((set_format_options B ss l o).sinks ≡ l.sinks)
  unfolding set_format_options
  set_format_options-IsValid l o v = (
    record { buffer = v.buffer; cache = formatter-Cached env.libc l.name o },
    ap
        (λ o'. record {
          name = l.name;
          log_level = l.log_level;
          flush_level = l.flush_level;
          opts = o';
        })
        (opts-formatter l.name o),
    refl,
  )

  -- The logger that a move makes of a valid one is valid with the settings and sinks of the old
  -- one, and the old one is switched off, whatever the moves of its members leave behind.
  pub move-IsValid :
      (l left : Logger B ss)
      → IsValid B L ss env l
      → IsValid B L ss env (move B ss l left).0
        × (settings B ss (move B ss l left).0 ≡ settings B ss l)
        × ((move B ss l left).0.sinks ≡ l.sinks)
        × ((move B ss l left).1.log_level ≡ off)
  unfolding move
  move-IsValid l left v =
      (record { buffer = (L.move-IsValid l.buf v.buffer).0; cache = v.cache }, refl, refl, refl)
