-- ===== src/Command/Pattern.antt =====
-- The patterns of command/command.go and their matcher.
pub mod Defs
pub mod Spells
pub mod Complete
pub mod Greedy
