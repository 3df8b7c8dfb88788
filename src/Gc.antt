-- ===== src/Gc.antt =====
-- gc.c: the collector, with three colours of objects. An object is its address, a number, and 0 is
-- NULL.
pub mod Sets
pub mod Heap
pub mod Collect
pub mod Moving
pub mod Marking
pub mod Correct
pub mod Cache
pub mod Interning
