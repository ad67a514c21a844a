-- ===== src/Str.antt =====
-- d4np/str: string views and number parsing.
pub mod View
pub mod Parse
