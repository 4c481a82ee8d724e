-- ===== src/Ask.antt =====
-- src/llm/conversation.ts: the loop that answers one question, with its tool calls.
pub mod Types
pub mod Tools
pub mod Loop
pub mod Ending
pub mod Bounds
pub mod Pairing
pub mod Answers
mod Tests
