-- ===== src/Pack.antt =====
-- src/analyzer/packDetection.ts: how a struct is packed, by a pragma or by an attribute.
pub mod Number
pub mod Pragma
pub mod Replay
pub mod Attribute
pub mod Resolve
mod Tests
