-- ===== src/HeapAm.antt =====
-- The heap access method (crates/heapam).
pub mod Errors
pub mod Page
pub mod Heap
