-- ===== src/Execution.antt =====
-- The query code of src/execution: the conditions and values of execution_manager.h, what
-- execution_manager.cpp plans with them, and the executors.
pub mod Defs
pub mod Manager
pub mod Scan
pub mod Tree
mod Tests
