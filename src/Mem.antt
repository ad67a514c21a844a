-- ===== src/Mem.antt =====
-- d4np/mem: allocators over one block.
pub mod Arena
pub mod Pool
