-- ===== src/Common.antt =====
-- common/: the shared containers and helpers of the program.
pub mod IntervalSet
pub mod Throttle
