-- ===== src/Examples.antt =====
-- The programs in examples that have logic of their own.
pub mod StringFace
pub mod Async
pub mod Sorter
pub mod Bisort
pub mod Serialize
pub mod Queue
