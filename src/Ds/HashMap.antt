-- ===== src/Ds/HashMap.antt =====
-- d4np/ds/hashmap.h and hashmap.c: the map and its slots, the probing, the growth, the functions,
-- and below them the proofs. A result `none` is undefined behaviour (an access outside a block, a
-- division by zero).
pub mod State
pub mod Probe
pub mod Resize
pub mod Methods
pub mod Slots
pub mod Count
pub mod Table
pub mod Lookup
pub mod Update
pub mod Change
pub mod Answer
pub mod Locate
pub mod Valid
pub mod Store
pub mod Move
pub mod Grow
pub mod Put
pub mod Lifetime
pub mod Clear
mod Tests
