-- ===== src/Bench.antt =====
-- The benchmarks (bench) as programs: what their loops do, for any number of rounds.
pub mod FormatterBench
pub mod Latency
pub mod VsSpdlog
pub mod Comparison
