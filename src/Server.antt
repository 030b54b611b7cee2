-- ===== src/Server.antt =====
-- server: the migration of a CometBFT chain's data, and the start of the node.
pub mod Migration
pub mod Genesis
pub mod Start
pub mod Command
