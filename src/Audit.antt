-- ===== src/Audit.antt =====
-- The package internal/audit.
pub mod Types
pub mod Reconcile
pub mod Cleanup
pub mod Entries
pub mod Lookup
pub mod Ingest
pub mod Compression
pub mod Tests
