-- ===== src/Lib.antt =====
-- spdlite is a small logging library in headers (include/spdlite). A logger formats a line under
-- its lock, a header from the formatter and then the payload, and hands it to its sinks in order.
--
-- The parts and their files:
-- Base: shared helpers; lists over native numbers, integers with the division of C, and code that
-- may throw as functions on a state (Base/Exec).
-- Level, Message: `level`, its tags and `log_msg` of common.h.
-- Buffer: `memory_buf_t` as an interface, with its laws; Buffer/StackBuf is `detail::stack_buf`, the
-- implementation in common.h. {fmt}'s buffer is the other one, and stands outside.
-- Digits, Formatter: formatter.h. `put2` to `put9` write at an offset of the header's bytes, and
-- `format_header` is the chain refresh, patch_fraction, patch_thread_id, patch_level, as in the
-- source. Formatter/Layout is the documented header, with no cache and no offsets. Formatter/Bounds
-- has the places of its fields, Formatter/Within the memory behind them.
-- Sink, Logger: logger.h. `Sink` is the concept `log_sink` over a world that sinks share; a logger
-- is its members, and each call is a function on the logger and the world. The clock, the thread's
-- id, the bytes and the exception of the formatting library, the C library's calendar and stderr
-- are parameters. Logger/Spec is the specification, with its own account of the order of the sinks
-- and of the reports, Logger/Handed and Logger/Caught the code against that, Logger/Levels the
-- overloads and macros.
-- Streams, Console, FileSink, Rotating: the sinks (include/spdlite/sinks). Console/Windows is the
-- Windows half of console_sink.h; what isatty and the console say are parameters.
-- Disk: the calls of the standard library on files, on a list of entries. Each call that can fail
-- takes the next element of a list of faults, so every order of failures is covered.
-- Rotating: rotating_file_sink.h. Rotating/Names parses and prints the names of archives,
-- Rotating/Log is the rolling log that a sink implements, Rotating/Prune the pruning at the start,
-- Rotating/Untouched the active file when calls fail, Rotating/Kept the files that a sink leaves to
-- the next one, Rotating/Sessions sinks one after the other, and Rotating/Foreign the files of
-- other names.
-- SharedSink: shared_sink.h; sinks on the heap are cells, and copies have the same pointer.
-- Threads: threads that call operations on one object as a step relation; each operation is a list
-- of small steps, and other threads may move between any two. An operation under a lock_guard waits
-- for the lock, one without does not. Logger/Locked is the logger's calls in such steps, with what
-- takes the lock, Logger/Locked/Messages what each of them is to do with no buffer and no cached
-- header.
-- Programs: the world of a program, streams, disk and heap, and the sinks on it. Example is
-- example/example.cpp (Example/Outcome says what its main leaves), Bench/FormatterBench and
-- Bench/Latency are the files of those names in bench, Bench/Latency/Interleaved the threads of
-- bench_basic_file_mt all at once, where a call is what `log.info` does from the lock on;
-- Bench/VsSpdlog is bench/vs_spdlog.cpp, with spdlog as a parameter, and Bench/Comparison its table; a
-- loop of the benchmark library runs for any number of rounds.
-- Tests: the theorems at concrete inputs.
--
-- Integers of a fixed width keep their wrap (`% 2 ^ 64`), but for the `int` counters of the example
-- and the benchmarks, whose overflow is undefined. The only fuel is that of `std::to_string`
-- (twenty digits, as many as a 64-bit number has) and of the attempts of `try_rename_` (five, as in
-- the source).
--
-- Not modelled: the vendored {fmt}; the buffer of a C stream, so `flush` changes no file; the
-- destructors; the reports of exceptions of threads that share a logger, which follow the release
-- of the lock; errors of the status of a directory's entry. A path is a directory and a name, and
-- directories are always there.
pub mod Base
pub mod Level
pub mod Digits
pub mod Buffer
pub mod Formatter
pub mod Message
pub mod Sink
pub mod Logger
pub mod Streams
pub mod Console
pub mod Disk
pub mod FileSink
pub mod Rotating
pub mod SharedSink
pub mod Threads
pub mod Programs
pub mod Example
pub mod Bench
pub mod Tests
