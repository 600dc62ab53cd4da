-- ===== src/Restore.antt =====
-- backend/advanced_restore.py: `plan_restore`, which groups the files of a request by tape and puts
-- the tapes and the files in order, and the execution of a plan down to the copy of one file. The
-- catalog, the tape in the drive and the copy of a file are parameters.
pub mod Plan
pub mod Execute
pub mod Waits
pub mod Attempts
pub mod Endings
pub mod Coverage
pub mod Counts
pub mod Groups
pub mod Order
pub mod Positions
mod Tests
