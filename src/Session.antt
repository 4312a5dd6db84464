-- ===== src/Session.antt =====
-- internal/session: the plan, the state, and the parts of the running session.
pub mod Types
pub mod Backoff
pub mod Lanes
pub mod Routes
pub mod Quic
pub mod Runner
pub mod Reconnect
pub mod Host
pub mod Loop
pub mod Watch
pub mod Report
pub mod Signals
mod Example
