-- ===== src/Bluestore.antt =====
-- bluestore/: the object store.
pub mod ExtentMap
pub mod UseTracker
pub mod Blob
pub mod Lextents
