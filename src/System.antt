-- ===== src/System.antt =====
-- The catalogue of src/system: sm_meta.h, and what SmManager::create_table of sm_manager.cpp writes
-- into it.
pub mod Meta
pub mod Tables
pub mod Layout
pub mod Text
pub mod RoundTrip
mod Tests
