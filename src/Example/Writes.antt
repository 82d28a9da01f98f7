-- ===== src/Example/Writes.antt =====
-- What the parts of the example program that write one file do to the world (example/example.cpp).
use spdlite.Base.{
  ℕ, ◌+◌, ◌≡◌, refl, ap, ◌∙◌, [], ◌∷◌, ◌++◌, Bytes, codes, false, some, arith, length,
  get_elem?-append,
}
use spdlite.Base.Exec.{ok}
use spdlite.Level.{info, warn}
use spdlite.Sink.{Tuple}
use spdlite.Buffer.{MemoryBuf, IsLawful}
use spdlite.Disk.{FilePath, regular, Entries, lookup, put, same_file}
use spdlite.SharedSink.{shared_sink}
use spdlite.FileSink.{truncate}
use spdlite.FileSink.Text.{kept, file_sink-calm}
use spdlite.Logger.{logger}
use spdlite.Logger.Setters.{logger-IsValid}
use spdlite.Programs.{Host, World, env, ticked, make_console, view, on_first, on_second}
use spdlite.Programs.Shared.{shareds, shared_view}
use spdlite.Programs.Said.{Proper, and_then, log_sv-Said}
use spdlite.Programs.Files.{over, line_at, put_here, put_others, files, given-files}
use spdlite.Programs.Leaves.{new_settings, new-Ready}
use spdlite.Programs.Stdout.{printed, console_line}
use spdlite.Programs.Printed.{make_console-IsPlain}
use spdlite.Programs.Both.{given-both}
use spdlite.Example
use spdlite.Example.{in_logs, both}

abbrev pub example_txt : FilePath
example_txt = in_logs (codes "example.txt")

abbrev pub multi_txt : FilePath
multi_txt = in_logs (codes "multi.txt")

abbrev pub shared_txt : FilePath
shared_txt = in_logs (codes "shared.txt")

-- A file that is opened empty, and then has this text.
abbrev pub written : FilePath → Bytes → Entries → Entries
written p s es = put p (regular s) (put p (regular []) es)

-- The world of the shared sink, with the new cell and two more calls.
abbrev pub shared_world : World → World
shared_world w = record w {
  heap = w.heap ++ record { filename = shared_txt } ∷ [];
  readings = w.readings + 2;
}

pub written_others :
    (p q : FilePath) (s : Bytes) (es : Entries)
    → same_file p q ≡ false
    → lookup q (written p s es) ≡ lookup q es
written_others p q s es different =
    put_others p q (regular s) (put p (regular []) es) different
    ∙ put_others p q (regular []) es different

module _ (host : Host) where
  abbrev pub example_line : ℕ → Bytes
  example_line r =
      line_at host (new_settings (codes "my_logger")) r info
        (codes "This message is written to logs/example.txt")

  abbrev multi_text : Bytes
  multi_text = codes "This goes to both console and file"

  abbrev pub multi_line : ℕ → Bytes
  multi_line r = line_at host (new_settings []) r info multi_text

  abbrev pub multi_console : ℕ → Bytes
  multi_console r = console_line host (new_settings []) r info multi_text

  abbrev pub network_line : ℕ → Bytes
  network_line r =
      line_at host (new_settings (codes "network")) r info (codes "connection established")

  abbrev pub auth_line : ℕ → Bytes
  auth_line r = line_at host (new_settings (codes "auth")) r warn (codes "invalid token")

  module _ (B : MemoryBuf) (L : IsLawful B) (proper : Proper host) (w : World) (es : Entries) where
    pub file_sink_example_lem :
        kept truncate (lookup example_txt es) ≡ some []
        → Example.file_sink_example B host (over w es)
          ≡ (ok tt, over (ticked host w) (written example_txt (example_line w.readings) es))
    unfolding Example.file_sink_example
    file_sink_example_lem h = rw (file_sink-calm example_txt truncate es [] h) (
        let S = new_settings (codes "my_logger") in
        let payload = codes "This message is written to logs/example.txt" in
        let es1 = put example_txt (regular []) es in
        let e =
          given-files B L host S info payload example_txt w es1 []
            (put_here example_txt (regular []) es) in
        let said =
          log_sv-Said B L host (files B L host) proper S info (λ e. ground (arith, e)) (omega arith)
            payload (over w es1) (omega arith) (new-Ready B L host (codes "my_logger") example_txt)
            refl (ap (λ z. z.0) e) in
        λ i. (said.returns i, (said.world ∙ ap (λ z. z.1.1) e) i))

    pub multi_sink_example_lem :
        kept truncate (lookup multi_txt es) ≡ some []
        → Example.multi_sink_example B host (over w es) ≡ (
          ok tt,
          over
              (printed (multi_console w.readings) 1 w)
              (written multi_txt (multi_line w.readings) es),
        )
    unfolding Example.multi_sink_example logger
    multi_sink_example_lem h = rw (file_sink-calm multi_txt truncate es [] h) (
        let S = new_settings [] in
        let xs : Tuple (both B host) =
          (make_console B host, (record { filename = multi_txt }, tt)) in
        let es1 = put multi_txt (regular []) es in
        let e =
          given-both B L host S info (λ e. ground (arith, e)) (omega arith) multi_text
            (make_console B host) multi_txt w es1 [] (omega arith) (make_console-IsPlain B L host)
            (put_here multi_txt (regular []) es) in
        let (valid, same) = logger-IsValid B L (both B host) (env host) [] xs in
        let said =
          log_sv-Said B L host (both B host) proper S info (λ e. ground (arith, e)) (omega arith)
            multi_text (over w es1) (omega arith)
            (record { valid = valid; same = same; has = refl }) refl (ap (λ z. z.0) e) in
        λ i. (said.returns i, (said.world ∙ ap (λ z. z.1.1) e) i))

    pub shared_file_sink_example_lem :
        kept truncate (lookup shared_txt es) ≡ some []
        → Example.shared_file_sink_example B host (over w es) ≡ (
          ok tt,
          over (shared_world w) (
              put shared_txt
                (regular (network_line w.readings ++ auth_line (w.readings + 1)))
                (written shared_txt (network_line w.readings) es)),
        )
    unfolding Example.shared_file_sink_example
    shared_file_sink_example_lem h = rw (file_sink-calm shared_txt truncate es [] h) (
        let place = length w.heap in
        let s = shared_sink place place in
        let heap = w.heap ++ record { filename = shared_txt } ∷ [] in
        let cell = get_elem?-append w.heap (record { filename = shared_txt }) in
        let w1 = record w { heap = heap } in
        let line1 = network_line w.readings in
        let es1 = put shared_txt (regular []) es in
        let es2 = put shared_txt (regular line1) es1 in
        let first =
          shared_view B L host proper (codes "network") info (codes "connection established") s
            shared_txt w1 es1 [] (λ e. ground (arith, e)) (omega arith) refl (omega arith) cell
            (put_here shared_txt (regular []) es) in
        let second =
          shared_view B L host proper (codes "auth") warn (codes "invalid token") s shared_txt
            (ticked host w1) es2 line1 (λ e. ground (arith, e)) (omega arith) refl (omega arith)
            cell (put_here shared_txt (regular line1) es1) in
        let m1 = view B host (shareds B L host) info (codes "connection established") in
        let m2 = view B host (shareds B L host) warn (codes "invalid token") in
        let la = logger B (shareds B L host) (codes "network") (s, tt) in
        let lb = logger B (shareds B L host) (codes "auth") (s, tt) in
        let step =
          and_then (λ _. on_second m2) (on_first m1 ((la, lb), over w1 es1)) first.0 first.1 in
        let final =
          ap (λ z. z.1.1) step
          ∙ second.1
          ∙ ap
              (λ n.
                over (record w1 { readings = n })
                  (put shared_txt (regular (line1 ++ auth_line (w.readings + 1))) es2))
              (omega arith) in
        λ i. ((ap (λ z. z.0) step ∙ second.0) i, final i))
