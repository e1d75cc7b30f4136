-- ===== src/Catalog.antt =====
-- The heap-backed catalog (crates/catalog).
pub mod Utf8
pub mod Codec
