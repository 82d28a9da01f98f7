-- ===== src/Tests.antt =====
-- The theorems at concrete inputs.
pub mod Samples
pub mod Logging
pub mod Files
pub mod Output
pub mod Rotation
pub mod Restart
pub mod Example
pub mod Benchmarks
pub mod Threads
pub mod Programs
