-- ===== src/Tests/Output.antt =====
-- The line buffer and the colour sink at concrete inputs.
use spdlite.Base.{List, some, [], ◌∷◌, codes, arith, ◌≡◌, refl, true, length}
use spdlite.Base.Int.{pos}
use spdlite.Level.{info}
use spdlite.Message.{LogMsg}
use spdlite.Buffer.StackBuf.{fresh, contents, size}
use spdlite.Buffer.StackBuf.Refine.{Op, push_back, append, move, run, replay, run-refines}
use spdlite.Console.{ConsoleSink, console_sink, always, green}
use spdlite.Console
use spdlite.Console.Windows
use spdlite.Console.Windows.Text.{Shown, write-Shown}
use spdlite.Console.Color.{Wrote, write-Wrote}
use spdlite.Tests.Samples.{buf, lawful, quiet}

abbrev ops : List Op
ops = push_back b'[' ∷ append (codes "INF] ") ∷ move [] ∷ append (codes "hi") ∷ []

run-refines_example :
    (contents (run ops fresh) ≡ replay ops (contents fresh))
    × (size (run ops fresh) ≡ length (replay ops (contents fresh)))
run-refines_example = run-refines ops fresh (omega arith, (omega arith, tt)) (omega arith)

abbrev line : LogMsg
line = record {
  time = pos 0;
  logger_name = [];
  log_level = info;
  formatted = codes "[09:07:03] [INF] hi";
  payload = codes "hi";
  level_offset = 12;
}

abbrev terminal : ConsoleSink buf
terminal = console_sink buf always true

write-Wrote_example :
    Wrote buf lawful terminal line green quiet (Console.write buf line (terminal, quiet))
unfolding Console.console_sink_base
write-Wrote_example =
    write-Wrote buf lawful terminal line green quiet lawful.fresh-IsValid (omega arith)
      (omega arith) refl (omega arith)

-- The same line on a Windows console.
abbrev console : Windows.ConsoleSink
console = Windows.console_sink_base true Windows.automatic true (some 7)

write-Shown_example : Shown console line [] (Windows.write console line [])
unfolding Windows.console_sink_base
write-Shown_example = write-Shown console line [] 2 refl (omega arith) refl (omega arith)
