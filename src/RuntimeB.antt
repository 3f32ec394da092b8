-- ===== src/RuntimeB.antt =====
-- runtime-b: the direct A2A server. `Fixture` reads requests, `Clone` copies A2A values, `Nested`
-- calls other agents, `Handler` keeps the tasks, `Stream` is message/stream as a state machine.
pub mod Identity
pub mod Fixture
pub mod Clone
pub mod Config
pub mod Nested
pub mod Handler
pub mod Send
pub mod Events
pub mod Stream
pub mod System
pub mod Registry
pub mod Configured
pub mod Unsupported
pub mod Server
pub mod Command
pub mod Examples
pub mod Tests
