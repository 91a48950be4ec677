-- ===== src/Mio.antt =====
-- The sockets of the crate `mio` and of the operating system behind them, as the code calls them.
-- A call takes the state of the socket and returns its result and the new state.
use socket_collection.Base.{ℕ, Result, Option}
use socket_collection.Env.{Crates, Bytes}
use socket_collection.Error.{IoError}

-- `mio::tcp::TcpStream`, and what the event loop is told of it.
pub record TcpApi (x : Crates) : Type 1 where
  pub Stream : Type 0
  -- The poll, token, interest and options of one registration.
  pub Registration : Type 0
  pub Poll : Type 0
  pub connect : x.SocketAddr → Result IoError Stream
  -- A read into a buffer of the given size, with the bytes that it put there.
  pub read : Stream → ℕ → Result IoError Bytes × Stream
  pub write : Stream → Bytes → Result IoError ℕ × Stream
  -- The linger time in nanoseconds.
  pub set_linger : Stream → Option ℕ → Result IoError (Unit {0}) × Stream
  pub set_ttl : Stream → ℕ → Result IoError (Unit {0}) × Stream
  pub ttl : Stream → Result IoError ℕ
  pub local_addr : Stream → Result IoError x.SocketAddr
  pub peer_addr : Stream → Result IoError x.SocketAddr
  pub take_error : Stream → Result IoError (Option IoError) × Stream
  pub register : Stream → Registration → Result IoError (Unit {0}) × Stream
  pub reregister : Stream → Registration → Result IoError (Unit {0}) × Stream
  pub deregister : Stream → Poll → Result IoError (Unit {0}) × Stream
  -- `shutdown(Shutdown::Both)`.
  pub shutdown : Stream → Result IoError (Unit {0}) × Stream

-- `mio::net::UdpSocket`. A received datagram is what of it fits the buffer of the given size.
pub record UdpApi (x : Crates) : Type 1 where
  pub Sock : Type 0
  pub Registration : Type 0
  pub Poll : Type 0
  pub bind : x.SocketAddr → Result IoError Sock
  pub connect : Sock → x.SocketAddr → Result IoError (Unit {0}) × Sock
  pub recv : Sock → ℕ → Result IoError Bytes × Sock
  pub recv_from : Sock → ℕ → Result IoError (Bytes × x.SocketAddr) × Sock
  pub send : Sock → Bytes → Result IoError ℕ × Sock
  pub send_to : Sock → Bytes → x.SocketAddr → Result IoError ℕ × Sock
  pub set_ttl : Sock → ℕ → Result IoError (Unit {0}) × Sock
  pub ttl : Sock → Result IoError ℕ
  pub local_addr : Sock → Result IoError x.SocketAddr
  pub take_error : Sock → Result IoError (Option IoError) × Sock
  pub register : Sock → Registration → Result IoError (Unit {0}) × Sock
  pub reregister : Sock → Registration → Result IoError (Unit {0}) × Sock
  pub deregister : Sock → Poll → Result IoError (Unit {0}) × Sock
