-- ===== src/Recovery.antt =====
-- The log of src/recovery: the records of log_record.h. What writes them to the log is unfinished
-- there.
pub mod LogRecord
pub mod Sizes
pub mod TableNames
mod Tests
