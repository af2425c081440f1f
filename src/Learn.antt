-- ===== src/Learn.antt =====
-- learn/bolt-bleve, the trial of a document store on BoltDB and Bleve.
pub mod Partition
pub mod Store
pub mod Held
pub mod Stored
pub mod Replay
