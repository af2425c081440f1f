-- ===== src/Tests.antt =====
-- Examples: each property of the other modules at concrete data.
mod Fixtures
mod Runs
mod Machines
mod Batches
mod Commands
mod Services
mod Nodes
mod Lives
mod Cuts
mod Snapshots
mod Tools
mod Searches
mod Learns
mod Stores
mod Sessions
