-- ===== src/RuntimeA.antt =====
-- Runtime A: the agent that passes a request on through the Router, behind an agent framework.
pub mod Config
pub mod Nested
pub mod Engine
pub mod Handler
pub mod Server
pub mod Command
pub mod Examples
mod Tests
