-- ===== src/Index.antt =====
-- index/: the B+ tree.
pub mod Compare
pub mod Node
pub mod Tree
pub mod Manager
