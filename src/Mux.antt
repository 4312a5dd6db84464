-- ===== src/Mux.antt =====
-- internal/mux: the wire formats of the mux protocol.
pub mod Frames
pub mod Socket
pub mod Stream
pub mod Negotiate
pub mod Echo
pub mod Control
