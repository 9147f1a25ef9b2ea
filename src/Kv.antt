-- ===== src/Kv.antt =====
-- kv/: the key-value layer.
pub mod Bytes
pub mod MemDb
