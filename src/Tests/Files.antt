-- ===== src/Tests/Files.antt =====
-- The file sink at concrete inputs.
use spdlite.Base.{[], ◌∷◌, codes, refl}
use spdlite.Base.Int.{pos}
use spdlite.Level.{info}
use spdlite.Message.{LogMsg}
use spdlite.Disk.{FilePath, regular, Entries, lookup}
use spdlite.FileSink.{append}
use spdlite.FileSink.Text.{Session, file_sink-Session}

abbrev pub file : FilePath
file = record { parent_path = codes "logs"; filename = codes "app.txt" }

abbrev pub line : LogMsg
line = record {
  time = pos 0;
  logger_name = [];
  log_level = info;
  formatted = codes "[INF] hi";
  payload = codes "hi";
  level_offset = 1;
}

abbrev pub before : Entries
before = (file, regular (codes "old")) ∷ []

file_sink-Session_example : Session file append before (codes "old") (line ∷ line ∷ [])
unfolding lookup
file_sink-Session_example =
    file_sink-Session file append before (codes "old") (line ∷ line ∷ []) refl
