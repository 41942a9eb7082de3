-- ===== src/Btree.antt =====
-- src/index/btree.c: the B-tree that stores index keys with the offsets of their rows.
pub mod Order
pub mod Node
pub mod Layout
pub mod Pages
pub mod Inorder
pub mod Shape
pub mod Insert
pub mod Search
pub mod Delete
pub mod Handle
