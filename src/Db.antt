-- ===== src/Db.antt =====
-- db.go: the Drummer DB, a state machine that Raft replicates. `State` has its state, the other
-- children the operations and what is proved of them.
-- A method that panics ends the process, so its state is not kept.
pub mod State
pub mod Operations
pub mod KeyValue
pub mod Launch
pub mod Frame
pub mod History
pub mod Mailbox
pub mod Cluster
pub mod Deadline
pub mod Snapshot
pub mod ShardStates
pub mod Lookups
