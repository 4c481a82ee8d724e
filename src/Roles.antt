-- ===== src/Roles.antt =====
-- src/analyzer/structRoleAnalyzer.ts and `canonicalName` of src/analyzer/headerGenBundle.ts: which
-- structs are messages, and which are blocks of them.
pub mod Types
pub mod Containment
pub mod Report
pub mod Depth
pub mod Embedding
pub mod Duality
pub mod Rules
pub mod Standing
pub mod Grouped
pub mod Order
mod Tests
