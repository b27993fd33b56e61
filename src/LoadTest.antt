-- ===== src/LoadTest.antt =====
-- The load test of loadtest/cmd/loadtest: its configuration, its phases and their verdicts, and the
-- program that runs them.
pub mod Floats
pub mod Config
pub mod Report
pub mod Checkpoint
pub mod Suite
pub mod Traffic
pub mod Ceiling
pub mod Steady
pub mod Avalanche
pub mod Polling
pub mod Baseline
pub mod Seeder
pub mod Main
