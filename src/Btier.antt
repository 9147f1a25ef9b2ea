-- ===== src/Btier.antt =====
-- btier/: the two-tier block store. The children model its types, the metrics word, the extent map,
-- the key map and the migration engine over both.
pub mod Types
pub mod Metrics
pub mod FreeList
pub mod ExtentMap
pub mod KeyMap
pub mod MigrationEngine
pub mod JournalRecord
pub mod Journal
