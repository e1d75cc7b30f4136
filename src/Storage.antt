-- ===== src/Storage.antt =====
-- The storage crate (crates/storage): page stores, replacement and the buffer pool.
pub mod Clock
pub mod Store
pub mod Pool
pub mod BufferModel
