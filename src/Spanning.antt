-- ===== src/Spanning.antt =====
-- backend/tape_spanning.py: the sessions of `TapeSpanningManager`, one for each job whose archive
-- spans several tapes. Times of day that are only shown, log lines and events for the browser are
-- left out.
pub mod Changer
pub mod Sequence
pub mod Manager
pub mod Parts
pub mod Wait
pub mod Changes
pub mod Races
pub mod Reachable
pub mod VtlChanger
mod Tests
