-- ===== src/Tests/Restart.antt =====
-- Rotating sinks that are made, calls that fail, and the comparison at concrete inputs.
use spdlite.Base.{
  ℕ, zero, suc, ◌+◌, ◌<◌, ◌≡◌, refl, sym, ap, ◌∙◌, arith, List, [], ◌∷◌, codes, some, none, inl,
  if◌then◌else◌, if_false, ltb, ◌==◌,
}
use spdlite.Base.Exec.{other_exception}
use spdlite.Level.{info}
use spdlite.Disk.{regular, Entries, lookup, listing, same_file}
use spdlite.Rotating.{rotating_file_sink, archive_path_, highest_index, archive_index}
use spdlite.Rotating.Names.{
  to_string, emit, cut_name, last_period, parse_archive_index_, scan_digits,
}
use spdlite.Rotating.Window.{same_archive, not_active}
use spdlite.Rotating.Steps.{calm}
use spdlite.Rotating.Log.{RollingLog, archived}
use spdlite.Rotating.Kept.{highest, Kept}
use spdlite.Rotating.Restart.{Resumed, rotating_file_sink-Resumed}
use spdlite.Logger.{log, log_sv, Formatting}
use spdlite.Logger.Errors.{Safe, log-Safe}
use spdlite.Bench.Comparison.{Double, Run}
use spdlite.Streams.{stdout_write, fwrite_bytes}
use spdlite.Tests.Rotation.{base, named}
use spdlite.Tests.Samples.{env, buf, sinks, app, quiet, call}

-- What another sink left: one archive, and an active file.
abbrev pub left : Entries
left = (archive_path_ base 1, regular (codes "old")) ∷ (base, regular (codes "now")) ∷ []

abbrev pub log_left : RollingLog
log_left = record { active = codes "now"; archives = codes "old" ∷ [] }

pub highest-left : highest base left ≡ 1
unfolding highest_index archive_index parse_archive_index_ archive_path_ to_string emit cut_name
    last_period scan_digits listing
highest-left = refl

window_left :
    (n : ℕ)
    → 0 < n
    → (if 1 == n then some (regular (codes "old")) else none) ≡ archived (codes "old" ∷ []) 2 n
window_left zero h = absurd (omega arith)
window_left (suc zero) h = refl
window_left (suc (suc n)) h = ground arith

pub left-Kept : Kept base left log_left
unfolding lookup
left-Kept = record {
  active = inl (if_false _ (not_active base named 1).0);
  fits = omega arith;
  window = λ n hn.
      ap
        (λ t.
          if t
          then some (regular (codes "old"))
          else (if same_file base (archive_path_ base n)
              then some (regular (codes "now"))
              else none))
        (same_archive base named 1 n (omega arith, omega arith) hn)
      ∙ ap (λ x. if 1 == n then some (regular (codes "old")) else x)
          (if_false _ (not_active base named n).1)
      ∙ window_left n hn.0
      ∙ ap (λ k. archived (codes "old" ∷ []) (k + 1) n) (sym highest-left);
}

rotating_file_sink-Resumed_example :
    Resumed base left 8 2
      (highest base left + 1)
      (record log_left { archives = codes "old" ∷ [] })
      (rotating_file_sink base 8 2 (calm left))
rotating_file_sink-Resumed_example =
    rotating_file_sink-Resumed base left 8 2 log_left named (omega arith) (omega arith)
      (omega arith) left-Kept

-- A format call that throws.
abbrev broken : Formatting
broken = record { out = codes "hal"; thrown = some other_exception }

log-Safe_example :
    Safe buf sinks app (log buf sinks env call info broken (app, quiet))
    × Safe buf sinks app (log_sv buf sinks env call info (codes "hi") (app, quiet))
unfolding stdout_write fwrite_bytes
log-Safe_example =
    log-Safe buf sinks env call info app quiet broken (codes "hi") (λ msg p. tt, λ p. tt, tt) tt

-- Numbers in place of `double`.
abbrev numbers : Double
numbers = record {
  Value = ℕ;
  zero = 0;
  nanoseconds = λ t n. t;
  is_positive = λ v. ltb 0 v;
  ratio = λ a b. a;
  print_row = λ name a b c. name;
}

abbrev runs : List (Run numbers)
runs =
    record { function_name = codes "spdlite_a"; real_accumulated_time = 5; iterations = 1 }
    ∷ record { function_name = codes "spdlog_a"; real_accumulated_time = 9; iterations = 1 }
    ∷ record { function_name = codes "spdlite_a"; real_accumulated_time = 7; iterations = 1 }
    ∷ []
