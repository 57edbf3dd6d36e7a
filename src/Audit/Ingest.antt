-- ===== src/Audit/Ingest.antt =====
-- internal/audit/index.go: how the lines of the log files become rows of the index. Files and lines
-- are lists of bytes. A scan runs alone (scanMu) and its writes to one file's rows are one
-- transaction; failures of the operating system while a file is read are not modelled.
pub mod Tables
pub mod Insert
pub mod Files
pub mod Lines
pub mod Keys
pub mod Resume
pub mod Unique
pub mod Places
pub mod Limit
pub mod Tests
