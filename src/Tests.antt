-- ===== src/Tests.antt =====
-- Runs of the program's models at concrete inputs.
mod Samples
mod Bitmaps
mod Attesters
mod BlockEnds
mod Migrations
mod Peers
mod Pages
mod Stores
mod Chains
mod Queues
mod Answers
mod Servers
mod Failures
mod Geneses
mod Exports
mod Filters
mod Nodes
mod Subscriptions
mod Sorts
