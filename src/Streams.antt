-- ===== src/Streams.antt =====
-- `stdout` and `stderr` as the bytes written to them, and the sinks that write lines to them as
-- they are (include/spdlite/sinks/stdout_sink.h, include/spdlite/sinks/null_sink.h).
use spdlite.Base.{◌++◌, Bytes}
use spdlite.Base.Exec.{Exec, Done, ok}
use spdlite.Message.{LogMsg}
use spdlite.Sink.{Sink}

pub data Stream : Type 0 where
  stdout stderr : Stream

pub record Streams : Type 0 where
  pub out : Bytes
  pub err : Bytes

-- `detail::fwrite_bytes` on a stream that takes all bytes; its result is not looked at here.
unfoldable pub fwrite_bytes : Bytes → Stream → Streams → Streams
fwrite_bytes s stdout w = record w { out = w.out ++ s }
fwrite_bytes s stderr w = record w { err = w.err ++ s }

abbrev pub read : Stream → Streams → Bytes
read stdout w = w.out
read stderr w = w.err

-- `stdout_sink`; its state is the stream. `stderr_sink` is the same on `stderr`.
unfoldable pub stdout_write : LogMsg → Exec (Stream × Streams) Done
stdout_write msg (file, w) = (ok tt, (file, fwrite_bytes msg.formatted file w))

abbrev pub stdout_sink : Sink Streams
stdout_sink = record { State = Stream; write = stdout_write; flush = λ p. (ok tt, p) }

-- The streams that the constructors of `stdout_sink` and `stderr_sink` take.
abbrev pub stdout_file : Stream
stdout_file = stdout

abbrev pub stderr_file : Stream
stderr_file = stderr

-- `null_sink`
abbrev pub null_sink : {W : Type 0} → Sink W
null_sink = record { State = Unit {0}; write = λ msg p. (ok tt, p); flush = λ p. (ok tt, p) }
