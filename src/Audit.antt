-- ===== src/Audit.antt =====
-- The audit log (kernel/audit.py).
pub mod Entry
pub mod Redact
pub mod Reading
pub mod Log
pub mod Query
pub mod Secrets
pub mod Masks
pub mod History
pub mod Filters
pub mod Search
