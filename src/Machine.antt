-- ===== src/Machine.antt =====
-- statemachine/statemachine.go
pub mod Entry
pub mod Update
pub mod Sync
pub mod Lookup
pub mod Queue
pub mod Synced
pub mod Index
pub mod Reads
pub mod Stable
pub mod Invariant
pub mod Order
pub mod Queues
pub mod Solo
pub mod Batches
pub mod Reposts
pub mod Durable
pub mod Searches
pub mod Close
pub mod Snapshot
pub mod Recovery
pub mod Split
pub mod Detached
pub mod Pieces
pub mod Waits
pub mod Renumbered
pub mod Plain
pub mod Told
pub mod Represented
pub mod Firm
pub mod Fresh
pub mod Answers
pub mod Runs
pub mod Refines
