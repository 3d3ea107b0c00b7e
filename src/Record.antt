-- ===== src/Record.antt =====
-- record/: the files of records.
pub mod Bitmap
pub mod Layout
pub mod File
pub mod Scan
pub mod Manager
mod Tests
