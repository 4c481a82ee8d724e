-- ===== src/Layout.antt =====
-- src/analyzer/structLayoutEngine.ts: the memory layout of C structs on both targets.
pub mod Primitives
pub mod FieldType
pub mod Typedefs
pub mod Fields
pub mod Compute
mod Tests
