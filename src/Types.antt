-- ===== src/Types.antt =====
-- src/types: the comparison, conversion and storage of values.
pub mod KeyCompare
pub mod Value
pub mod Compare
pub mod Mapper
pub mod Resolve
pub mod Converter
pub mod Formatter
