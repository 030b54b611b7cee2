-- ===== src/Manager.antt =====
-- modules/rollkitmngr: the move of a chain from CometBFT validators to a Rollkit sequencer, with or
-- without attesters.
pub mod Types
pub mod Updates
pub mod Keeper
pub mod Query
pub mod Steps
pub mod Schedule
pub mod Answers
pub mod Progress
