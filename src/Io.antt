-- ===== src/Io.antt =====
-- d4np/io: file-system paths.
pub mod Combine
