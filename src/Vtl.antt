-- ===== src/Vtl.antt =====
-- backend/tape/vtl.py: the virtual tape library, an inventory of slots and drives on the local
-- disk.
-- A slot or drive is known by its number: the source's keys `str(i)` are one to one with them.
-- What a method writes before it raises stays written, so the library comes back beside an error.
pub mod State
pub mod Inventory
pub mod Media
pub mod Conservation
pub mod Moves
pub mod Persistence
pub mod Mounts
pub mod Visibility
mod Tests
