-- ===== src/Message.antt =====
-- `struct log_msg` (include/spdlite/common.h): the views that a logger hands to its sinks.
use spdlite.Base.{ℕ, Bytes}
use spdlite.Base.Int.{ℤ}
use spdlite.Level.{Level}

pub record LogMsg : Type 0 where
  pub time : ℤ
  pub logger_name : Bytes
  pub log_level : Level
  pub formatted : Bytes
  pub payload : Bytes
  pub level_offset : ℕ
