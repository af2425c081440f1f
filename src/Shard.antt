-- ===== src/Shard.antt =====
-- statemachine/shard.go
pub mod Defs
pub mod Applied
pub mod Indexed
pub mod Keys
pub mod Searchable
pub mod Buckets
pub mod Folded
