-- ===== src/Cluster.antt =====
-- storage/cluster
pub mod View
mod Tests
