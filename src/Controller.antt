-- ===== src/Controller.antt =====
-- backend/tape_controller.py: `TapeLibraryController`, which drives a tape library through the
-- commands mtx, mt and tapeinfo. The commands are a parameter; what the patterns of `re` find in a
-- line of `mtx status` is a `Line`. Messages of errors are left out, their classes are kept.
pub mod Hardware
pub mod State
pub mod Status
pub mod Action
pub mod Commands
pub mod Moves
pub mod Loads
pub mod Force
pub mod Operations
pub mod Keeps
pub mod Mounted
pub mod Returned
pub mod Emptied
pub mod Drives
pub mod Health
pub mod Probes
pub mod Debounce
pub mod Homes
mod Tests
