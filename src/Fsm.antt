-- ===== src/Fsm.antt =====
-- storage/table/fsm
pub mod Keys
pub mod Messages
pub mod Query
pub mod Compare
pub mod Context
pub mod Put
pub mod Delete
pub mod Txn
pub mod Command
pub mod Spec
pub mod Update
pub mod Lookup
pub mod Refinement
pub mod Effects
mod Tests
