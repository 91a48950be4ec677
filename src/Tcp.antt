-- ===== src/Tcp.antt =====
-- src/tcp.rs: frames, the reader, the buffered stream and the public socket.
pub mod Frame
pub mod Reader
pub mod Inner
pub mod Sock
pub mod Delivery
pub mod Session
