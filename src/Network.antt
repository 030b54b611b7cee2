-- ===== src/Network.antt =====
-- The x/network module (modules/network): attestations of block heights by validators.
pub mod Bitmap
pub mod Types
pub mod Keeper
pub mod MsgServer
pub mod EndBlock
pub mod Invariant
pub mod Query
pub mod Genesis
