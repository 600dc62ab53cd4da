-- ===== src/Audit.antt =====
-- The audit log of backend/database.py (`add_audit_log`, `verify_audit_chain` and their helpers):
-- rows that are chained by hashes.
pub mod Log
pub mod Build
pub mod Verify
pub mod Complete
pub mod Tamper
mod Tests
