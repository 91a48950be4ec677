-- ===== src/Udt.antt =====
-- src/udt: the UDT socket and its event loop.
pub mod Api
pub mod Frame
pub mod Inner
pub mod Delivery
pub mod Session
pub mod EventLoop
pub mod IoError
pub mod Sock
