-- ===== src/Peer.antt =====
-- The peer package: one connection, the queues of its jobs, and the bodies that they carry.
pub mod Reason
pub mod Queue
pub mod Job
pub mod Body
pub mod Conn
pub mod Run
pub mod Synth
pub mod Relay
pub mod Register
pub mod Tests
