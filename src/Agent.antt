-- ===== src/Agent.antt =====
-- The agent's side (internal/agent).
pub mod Redact
pub mod Exec
pub mod Config
pub mod World
pub mod Records
pub mod Request
pub mod Fetch
pub mod Send
pub mod Revoke
pub mod Run
mod Tests
