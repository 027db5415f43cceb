-- ===== src/LogReader.antt =====
-- storage/logreader
pub mod Cache
pub mod Reader
mod Tests
