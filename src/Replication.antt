-- ===== src/Replication.antt =====
-- Replication of tables from a leader to a follower: the log server of regattaserver/replication.go, the
-- worker of replication/worker.go, and the messages between them.
pub mod Messages
pub mod Entries
pub mod LogServer
pub mod Worker
pub mod Runs
pub mod Mirror
pub mod CatchUp
pub mod Round
pub mod Registry
pub mod SnapshotFile
pub mod Snapshot
mod Tests
