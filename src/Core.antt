-- ===== src/Core.antt =====
-- src/core: the database, the commands, and Raft.
pub mod MemDb
pub mod Cmd
pub mod Executor
pub mod Fsm
pub mod Cluster
pub mod Observer
pub mod Config
pub mod Identity
pub mod Calls
pub mod Storage
pub mod Node
pub mod Startup
pub mod Lifecycle
pub mod JoinClient
pub mod Membership
