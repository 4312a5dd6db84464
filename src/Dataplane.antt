-- ===== src/Dataplane.antt =====
-- internal/dataplane: the packets that the client builds itself, and the ICMP echo flows.
pub mod Packet
pub mod Echo
