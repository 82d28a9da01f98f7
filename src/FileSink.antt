-- ===== src/FileSink.antt =====
-- `file_sink` (include/spdlite/sinks/file_sink.h): one stream on one file.
pub mod Text
use spdlite.Base.{[], ◌∷◌, List, Bool, true, false, if◌then◌else◌}
use spdlite.Base.Exec.{Result, ok, fail, Exec, Done, bind, pure, ◌>>◌}
use spdlite.Message.{LogMsg}
use spdlite.Disk.{
  FilePath, Disk, eq_bytes, succeeds, fopen, fwrite_bytes, open_error, directory_error,
}

pub data OpenMode : Type 0 where
  append truncate : OpenMode

abbrev pub is_truncate : OpenMode → Bool
is_truncate append = false
is_truncate truncate = true

-- A sink that was made has a stream open on its file.
pub record FileSink : Type 0 where
  pub filename : FilePath

unfoldable pub file_sink : FilePath → OpenMode → Disk → Result FileSink × Disk
file_sink filename mode d =
    let made = if eq_bytes filename.parent_path [] then (true, d) else succeeds d in
    let opened = fopen made.1 filename (is_truncate mode) in
    if made.0
    then if opened.0
      then (ok (record { filename = filename }), opened.1)
      else (fail (open_error filename), opened.1)
    else (fail directory_error, made.1)

-- The result of `fwrite_bytes` is not looked at.
unfoldable pub file_write : LogMsg → Exec (FileSink × Disk) Done
file_write msg (s, d) = (ok tt, (s, (fwrite_bytes d s.filename msg.formatted).1))

-- `flush` pushes the stream's buffer, which is not modelled, to the file.
abbrev pub file_flush : Exec (FileSink × Disk) Done
file_flush p = (ok tt, p)
