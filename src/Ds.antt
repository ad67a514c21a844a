-- ===== src/Ds.antt =====
-- d4np/ds: containers.
pub mod Vector
pub mod StringBuilder
pub mod HashMap
pub mod RingBuffer
pub mod LinkedList
