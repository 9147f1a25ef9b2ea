-- ===== src/Bluefs.antt =====
-- bluefs/: the small file system under the key-value store.
pub mod Fnode
pub mod VolumeSelector
