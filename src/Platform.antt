-- ===== src/Platform.antt =====
-- internal/platform: the calls of the host that the session makes.
pub mod Files
pub mod Resolver
pub mod Router
