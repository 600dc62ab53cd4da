-- ===== src/Runner.antt =====
-- backend/tape/runner.py: `TapeCommandRunner`, which runs a command with retries and backoff and
-- keeps a history. The process, the clock and the random faults of `ChaosInjector` are parameters;
-- locks, log lines, and the 4000 characters that the history keeps of the output are left out.
pub mod Errors
pub mod Loop
pub mod Attempts
pub mod Backoff
mod Tests
