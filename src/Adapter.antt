-- ===== src/Adapter.antt =====
-- pkg/adapter: what runs an application on Rollkit.
pub mod Types
pub mod Store
pub mod Commit
pub mod Events
pub mod Env
pub mod Gossip
pub mod Filter
pub mod Execute
pub mod MempoolIds
