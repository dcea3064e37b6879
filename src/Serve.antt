-- ===== src/Serve.antt =====
-- src/serve: how a response is served. The children model one source file each.
pub mod Behavior
pub mod Pace
pub mod Engine
pub mod Limiter
pub mod Runtime
pub mod Parse
