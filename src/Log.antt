-- ===== src/Log.antt =====
-- src/logdb_log.c and src/logdb_log.h: the log file and its locks.
pub mod Copies
pub mod Create
pub mod Entry
pub mod Header
pub mod Lock
pub mod Merge
pub mod Recreate
pub mod RoundTrip
pub mod Layout
