-- ===== src/Bolt.antt =====
-- BoltDB: the interface, and a store that meets it.
pub mod Defs
pub mod Model
