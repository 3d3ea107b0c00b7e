-- ===== src/Storage.antt =====
-- storage/: pages on disk and in the buffer pool.
pub mod Page
pub mod DiskInterface
pub mod Posix
pub mod Disk
pub mod Memory
pub mod BufferPool
