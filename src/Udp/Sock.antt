-- ===== src/Udp/Sock.antt =====
-- `UdpSock` of src/udp.rs: the public socket, which may be uninitialised.
pub mod Uninitialised
pub mod Peer
use Prim.Native.String.{String}
use socket_collection.Base.{ℕ, Option, none, some, Result, ok, err, map_err, Run, done, ◌>>=◌, Bool}
use socket_collection.Env.{Crates, Codec}
use socket_collection.Error.{
  IoError, Res, io, uninitialised_socket, unconnected_udp_socket, uninitialised_io,
}
use socket_collection.Crypto.{EncryptContext, DecryptContext}
use socket_collection.Config.{SocketConfig, Priority, default_config}
use socket_collection.OutQueue.{Instant, Clock}
use socket_collection.Mio.{UdpApi}
use socket_collection.Udp.Inner.{Inner}
use socket_collection.Udp.Inner

pub record UdpSock {x : Crates} (api : UdpApi x) : Type 0 where
  pub inner : Option (Inner api)

-- `inner.peer.ok_or(SocketError::UnconnectedUdpSocket)`.
known_peer : {x : Crates} → Option x.SocketAddr → Res x x.SocketAddr
known_peer none = err unconnected_udp_socket
known_peer (some addr) = ok addr

module _ {x : Crates} {api : UdpApi x} where
  -- `UdpSock::default`.
  abbrev pub default : UdpSock api
  default = record { inner = none }

  -- `Debug for UdpSock`.
  abbrev pub fmt : UdpSock api → String
  fmt sock = elim sock.inner [
    | none ↦ "UdpSock: initialised = false"
    | some s ↦ "UdpSock: initialised = true"
  ]

  pub wrap_with_conf : api.Sock → SocketConfig x → UdpSock api
  wrap_with_conf sock conf = record { inner = some (Inner.new sock conf) }

  abbrev pub wrap : api.Sock → UdpSock api
  unfolding wrap_with_conf
  wrap sock = wrap_with_conf sock (default_config x)

  -- `bind_with_conf` on the result of `UdpSocket::bind`.
  bound : SocketConfig x → Result IoError api.Sock → Res x (UdpSock api)
  unfolding wrap_with_conf
  bound conf (ok sock) = ok (wrap_with_conf sock conf)
  bound conf (err e) = err (io e)

  pub bind_with_conf : x.SocketAddr → SocketConfig x → Res x (UdpSock api)
  unfolding bound
  bind_with_conf addr conf = bound conf (api.bind addr)

  abbrev pub bind : x.SocketAddr → Res x (UdpSock api)
  unfolding bind_with_conf
  bind addr = bind_with_conf addr (default_config x)

  -- `self.inner.as_mut().ok_or(SocketError::UninitialisedSocket)?`, then an operation.
  pub with_inner :
      {A : Type 0} → UdpSock api → (Inner api → Res x A × Inner api) → Res x A × UdpSock api
  with_inner sock f = elim sock.inner [
    | none ↦ (err uninitialised_socket, sock)
    | some s ↦ let (result, s') = f s in (result, record { inner = some s' })
  ]

  -- The same for an operation with a loop.
  pub run_inner :
      {A : Type 0}
      → UdpSock api
      → (Inner api → Run (Res x A × Inner api))
      → Run (Res x A × UdpSock api)
  run_inner sock f = elim sock.inner [
    | none ↦ done (err uninitialised_socket, sock)
    | some s ↦ do (result, s') ← f s; done (result, record { inner = some s' })
  ]

  -- A call of the `mio` socket, with the `?` that makes an I/O error a socket error.
  abbrev on_sock :
      {A : Type 0} → (api.Sock → Result IoError A × api.Sock) → Inner api → Res x A × Inner api
  on_sock f s = let (result, sock) = f s.sock in (map_err io result, record s { sock = sock })

  abbrev ask_sock : {A : Type 0} → (api.Sock → Result IoError A) → Inner api → Res x A × Inner api
  ask_sock f s = (map_err io (f s.sock), s)

  pub set_encrypt_ctx : UdpSock api → EncryptContext x → Res x (Unit {0}) × UdpSock api
  unfolding with_inner
  set_encrypt_ctx sock ctx = with_inner sock (λ s. (ok tt, Inner.set_encrypt_ctx s ctx))

  pub set_decrypt_ctx : UdpSock api → DecryptContext x → Res x (Unit {0}) × UdpSock api
  unfolding with_inner
  set_decrypt_ctx sock ctx = with_inner sock (λ s. (ok tt, Inner.set_decrypt_ctx s ctx))

  -- `connect` on the result of the `mio` socket: the peer is remembered after a success only.
  connected :
      Inner api → x.SocketAddr → Result IoError (Unit {0}) × api.Sock → Res x (Unit {0}) × Inner api
  connected s addr (ok u, sock) = (ok tt, record s { sock = sock; peer = some addr })
  connected s addr (err e, sock) = (err (io e), record s { sock = sock })

  pub connect : UdpSock api → x.SocketAddr → Res x (Unit {0}) × UdpSock api
  unfolding with_inner connected
  connect sock addr = with_inner sock (λ s. connected s addr (api.connect s.sock addr))

  pub local_addr : UdpSock api → Res x x.SocketAddr × UdpSock api
  unfolding with_inner
  local_addr sock = with_inner sock (ask_sock api.local_addr)

  pub peer_addr : UdpSock api → Res x x.SocketAddr × UdpSock api
  unfolding with_inner known_peer
  peer_addr sock = with_inner sock (λ s. (known_peer s.peer, s))

  pub set_ttl : UdpSock api → ℕ → Res x (Unit {0}) × UdpSock api
  unfolding with_inner
  set_ttl sock ttl = with_inner sock (on_sock (λ s. api.set_ttl s ttl))

  pub ttl : UdpSock api → Res x ℕ × UdpSock api
  unfolding with_inner
  ttl sock = with_inner sock (ask_sock api.ttl)

  pub take_error : UdpSock api → Res x (Option IoError) × UdpSock api
  unfolding with_inner
  take_error sock = with_inner sock (on_sock api.take_error)

  -- `into_underlying_sock`: the socket is given up.
  pub into_underlying_sock : UdpSock api → Res x api.Sock
  into_underlying_sock sock = elim sock.inner [
    | none ↦ err uninitialised_socket
    | some s ↦ ok s.sock
  ]

  -- `Evented`: `ok_or_else` with the I/O error, then that of the inner socket.
  evented :
      UdpSock api
      → (Inner api → Result IoError (Unit {0}) × Inner api)
      → Result IoError (Unit {0}) × UdpSock api
  evented sock f = elim sock.inner [
    | none ↦ (err uninitialised_io, sock)
    | some s ↦ let (result, s') = f s in (result, record { inner = some s' })
  ]

  pub register : UdpSock api → api.Registration → Result IoError (Unit {0}) × UdpSock api
  unfolding evented
  register sock r = evented sock (λ s. Inner.register s r)

  pub reregister : UdpSock api → api.Registration → Result IoError (Unit {0}) × UdpSock api
  unfolding evented
  reregister sock r = evented sock (λ s. Inner.reregister s r)

  pub deregister : UdpSock api → api.Poll → Result IoError (Unit {0}) × UdpSock api
  unfolding evented
  deregister sock poll = evented sock (λ s. Inner.deregister s poll)

module _ {x : Crates} {api : UdpApi x} {T : Type 0} (c : Codec x T) where
  pub read : ℕ → UdpSock api → Run (Res x (Option T) × UdpSock api)
  unfolding run_inner
  read fuel sock = run_inner sock (Inner.read c fuel)

  pub read_frm : ℕ → UdpSock api → Run (Res x (Option (T × x.SocketAddr)) × UdpSock api)
  unfolding run_inner
  read_frm fuel sock = run_inner sock (Inner.read_frm c fuel)

  pub write :
      ℕ
      → UdpSock api
      → x.Nonce
      → Clock
      → Instant
      → Option (T × Priority)
      → Run (Res x Bool × UdpSock api)
  unfolding run_inner
  write fuel sock nonce clock now msg =
      run_inner sock (λ s. Inner.write c fuel s nonce clock now msg)

  pub write_to :
      ℕ
      → UdpSock api
      → x.Nonce
      → Clock
      → Instant
      → Option (T × x.SocketAddr × Priority)
      → Run (Res x Bool × UdpSock api)
  unfolding run_inner
  write_to fuel sock nonce clock now msg =
      run_inner sock (λ s. Inner.write_to c fuel s nonce clock now msg)
