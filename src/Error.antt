-- ===== src/Error.antt =====
-- src/error.rs, and the part of `std::io::Error` that the crate reads.
use Prim.Native.String.{String}
use socket_collection.Base.{ℕ, Result, Bool, true, false}
use socket_collection.Base.Int.{ℤ}
use socket_collection.Env.{Crates}

-- `std::io::ErrorKind`: the kinds that the crate names, and all others by a number.
pub data ErrorKind : Type 0 where
  would_block interrupted other : ErrorKind
  unlisted : ℕ → ErrorKind

pub record IoError : Type 0 where
  pub kind : ErrorKind
  pub text : String

pub record UdtError : Type 0 where
  pub err_msg : String

pub data SocketError (x : Crates) : Type 0 where
  io : IoError → SocketError x
  uninitialised_socket : SocketError x
  payload_size_prohibitive : SocketError x
  serialisation : x.SerialisationError → SocketError x
  zero_byte_read : SocketError x
  udt : UdtError → SocketError x
  unconnected_udp_socket : SocketError x
  no_udt_epoll : SocketError x
  udt_negative_bytes_read : ℤ → SocketError x
  udt_negative_bytes_write : ℤ → SocketError x
  crypto : x.CryptoError → SocketError x

-- `crate::Res`.
abbrev pub Res {ℓ} : Crates → Type ℓ → Type ℓ
Res x A = Result (SocketError x) A

-- `error.kind() == ErrorKind::WouldBlock || error.kind() == ErrorKind::Interrupted`.
abbrev pub is_retry : ErrorKind → Bool
is_retry would_block = true
is_retry interrupted = true
is_retry other = false
is_retry (unlisted n) = false

-- `io::Error::new(ErrorKind::Other, format!("{}", SocketError::UninitialisedSocket))`.
abbrev pub uninitialised_io : IoError
uninitialised_io = record {
  kind = other;
  text = "Socket is uninitialised and invalid for any operation";
}
