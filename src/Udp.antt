-- ===== src/Udp.antt =====
-- src/udp.rs: the two result handlers, the receiving and the sending loops, the buffered socket and
-- the public socket.
pub mod Handlers
pub mod Inbox
pub mod Outbox
pub mod Inner
pub mod Sock
pub mod Session
