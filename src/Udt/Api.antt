-- ===== src/Udt/Api.antt =====
-- What src/udt takes from others: the UDT library, `byteorder`, the streaming half of
-- `maidsafe_utilities::serialisation`, and constants of the crate root that src/lib.rs does not
-- declare under these names. A UDT socket is a copyable handle, so its calls take the state of the
-- library and return it.
use Prim.Native.String.{String}
use socket_collection.Base.{ℕ, ◌^◌, ◌<◌, ◌≡◌, Bool, Result, ok, ◌++◌, length}
use socket_collection.Base.Int.{ℤ}
use socket_collection.Env.{Crates, Bytes}
use socket_collection.Error.{SocketError, IoError}

-- `UdtOpts` with the values that the crate sets.
pub data UdtOption : Type 0 where
  udp_sndbuf udp_rcvbuf : ℕ → UdtOption
  udt_rcvsyn udt_sndsyn udt_rendezvous : Bool → UdtOption

-- `udt_extern`.
pub record UdtApi (x : Crates) : Type 1 where
  -- `UdtSocket`, the state of the library, and its errors.
  pub UdtSocket : Type 0
  pub Net : Type 0
  pub Failure : Type 0
  -- `std::net::UdpSocket`.
  pub StdSocket : Type 0
  -- `error.err_code == EASYNCRCV`, and `EASYNCSND`.
  pub is_easyncrcv : Failure → Bool
  pub is_easyncsnd : Failure → Bool
  -- `From<UdtError> for SocketError`.
  pub into_socket_error : Failure → SocketError x
  -- `{:?}` of an error.
  pub debug : SocketError x → String
  -- `UdtSocket::new(SocketFamily::AFInet, SocketType::Stream)`.
  pub new : Net → Result Failure UdtSocket × Net
  pub setsockopt : UdtSocket → UdtOption → Net → Result Failure (Unit {0}) × Net
  pub bind_from : UdtSocket → StdSocket → Net → Result Failure (Unit {0}) × Net
  pub connect : UdtSocket → x.SocketAddr → Net → Result Failure (Unit {0}) × Net
  pub getpeername : UdtSocket → Net → Result Failure x.SocketAddr
  -- A receive into a buffer of the given size: what it answers, and the buffer afterwards.
  pub recv : UdtSocket → ℕ → Net → Result Failure ℤ × Bytes × Net
  pub send : UdtSocket → Bytes → Net → Result Failure ℤ × Net
  pub close : UdtSocket → Net → Result Failure (Unit {0}) × Net

-- `MAX_PAYLOAD_SIZE`, `MSG_DROP_PRIORITY` and `MAX_MSG_AGE_SECS`.
pub record Limits : Type 0 where
  pub max_payload_size : ℕ
  pub msg_drop_priority : ℕ
  pub max_msg_age_secs : ℕ

-- `write_u32::<LittleEndian>` and `read_u32::<LittleEndian>` of a cursor at its beginning.
pub record ByteOrder : Type 0 where
  pub put_u32 : ℕ → Bytes
  pub get_u32 : Bytes → Result IoError ℕ

-- A number of 32 bits takes 4 bytes and is read back, whatever follows.
pub record ByteOrderLaws (o : ByteOrder) : Type 0 where
  pub length_put : (n : ℕ) → length (o.put_u32 n) ≡ 4
  pub get_put : (n : ℕ) (rest : Bytes) → n < 2 ^ 32 → o.get_u32 (o.put_u32 n ++ rest) ≡ ok n

-- `serialise_into` with the bytes that it appends, and `deserialise_from` a cursor at the beginning
-- of these bytes.
pub record StreamCodec (x : Crates) (T : Type 0) : Type 0 where
  pub serialise_into : T → Result x.SerialisationError Bytes
  pub deserialise_from : Bytes → Result x.SerialisationError T

-- What was written is read back, and what follows it is not looked at.
abbrev pub Streams : {x : Crates} {T : Type 0} → StreamCodec x T → Type 0
Streams {x} {T} c =
    (v : T) (bytes rest : Bytes)
    → c.serialise_into v ≡ ok bytes
    → c.deserialise_from (bytes ++ rest) ≡ ok v
