-- ===== src/Core.antt =====
-- d4np/core: status codes and the allocator contract.
pub mod Status
pub mod Allocator
pub mod Default
pub mod Model
