-- ===== src/Example/Files.antt =====
-- The files that the example program leaves (example/example.cpp).
use spdlite.Base.{◌+◌, ◌≡◌, refl, ◌∙◌, [], ◌++◌, false, some}
use spdlite.Base.Exec.{ok}
use spdlite.Buffer.{MemoryBuf, IsLawful}
use spdlite.Disk.{FilePath, regular, Entries, lookup, same_file}
use spdlite.FileSink.{truncate}
use spdlite.FileSink.Text.{kept}
use spdlite.Programs.{Host, World}
use spdlite.Programs.Said.{Proper}
use spdlite.Programs.Files.{over, put_here, put_others}
use spdlite.Example
use spdlite.Example.Writes.{
  shared_txt, written, written_others, network_line, auth_line, shared_file_sink_example_lem,
}

module _ (B : MemoryBuf) (L : IsLawful B) (host : Host) (proper : Proper host) where
  -- The example of a shared sink ends normally, leaves in logs/shared.txt exactly the two lines of
  -- the two loggers in order, changes no other file, and writes nothing to the standard streams. No
  -- call of the file system fails, and the file is absent or regular before; the clock and the
  -- calendar are as documented.
  pub shared_file_sink_example-lines :
      (w : World) (es : Entries)
      → kept truncate (lookup shared_txt es) ≡ some []
      → let out = Example.shared_file_sink_example B host (over w es) in
        (out.0 ≡ ok tt)
        × (lookup shared_txt out.1.disk.entries
            ≡ some (regular (network_line host w.readings ++ auth_line host (w.readings + 1))))
        × ((q : FilePath)
            → same_file shared_txt q ≡ false
            → lookup q out.1.disk.entries ≡ lookup q es)
        × (out.1.streams ≡ w.streams)
  shared_file_sink_example-lines w es h = rw (shared_file_sink_example_lem host B L proper w es h) (
      let first = written shared_txt (network_line host w.readings) es in
      (
        refl,
        put_here shared_txt _ first,
        λ q different.
            put_others shared_txt q _ first different
            ∙ written_others shared_txt q (network_line host w.readings) es different,
        refl,
      ))
