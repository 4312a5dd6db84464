-- ===== src/Cli.antt =====
-- internal/cli: from the arguments of a command, the local config, the discovery result and the
-- manifest to the plan of a session.
pub mod Remote
pub mod Networks
pub mod Plan
pub mod Flags
pub mod Values
pub mod Accepted
pub mod Alias
mod Tests
