-- ===== src/Agent.antt =====
-- crates/voice_server/src/agent: the conversation memory, the model router and the agent.
pub mod Memory
pub mod Router
pub mod Chat
mod Tests
