-- ===== src/Command.antt =====
-- command/command.go
pub mod Pattern
pub mod Types
pub mod Formats
pub mod Grammar
pub mod RoundTrip
pub mod Sound
pub mod Safe
