-- ===== src/Tests.antt =====
-- Witnesses at concrete inputs, over concrete crates and sockets that keep what the theorems ask.
mod World
mod Streams
mod Datagrams
mod Crypto
mod Queue
mod Frames
mod Tcp
mod Udp
mod Posts
mod UdtSession
mod Library
mod Udt
mod Epoll
mod Session
