-- ===== src/Sys.antt =====
-- d4np/sys: hashing, the error context and UUIDs.
pub mod Hash
pub mod ErrorContext
pub mod Uuid
