-- ===== src/Rpc.antt =====
-- pkg/rpc/core: the answers to CometBFT's RPC calls.
pub mod Paging
pub mod Heights
pub mod Types
pub mod Blocks
pub mod Search
pub mod Consensus
pub mod Broadcast
pub mod Chunks
pub mod Net
pub mod Events
