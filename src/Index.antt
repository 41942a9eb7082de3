-- ===== src/Index.antt =====
-- src/index: keys of several columns.
pub mod Comparator
pub mod Registry
pub mod Keys
pub mod Set
pub mod Mirror
