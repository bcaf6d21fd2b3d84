-- ===== src/Relay.antt =====
-- The relay (internal/relay): slots, the stores that keep them, and the HTTP server in front.
pub mod Slot
pub mod Memory
pub mod Config
pub mod Redis
pub mod Handlers
pub mod Auth
pub mod Limiter
pub mod ClientIp
