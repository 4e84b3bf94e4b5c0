-- ===== src/Harness.antt =====
-- benchmarks/harness: the benchmark's RESP client, and the comparison of two runs.
pub mod Client
pub mod Compare
