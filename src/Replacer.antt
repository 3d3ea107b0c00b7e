-- ===== src/Replacer.antt =====
-- replacer/: what tracks the frames of the buffer pool that may be evicted.
pub mod Interface
pub mod Lru
pub mod Clock
