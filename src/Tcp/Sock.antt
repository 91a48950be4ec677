-- ===== src/Tcp/Sock.antt =====
-- `TcpSock` of src/tcp.rs: the public socket, which may be uninitialised.
pub mod Uninitialised
use Prim.Native.String.{String}
use socket_collection.Base.{ℕ, Option, none, some, Result, ok, err, map_err, Run, done, ◌>>=◌, Bool}
use socket_collection.Env.{Crates, Codec}
use socket_collection.Error.{IoError, Res, io, uninitialised_socket, uninitialised_io}
use socket_collection.Crypto.{EncryptContext, DecryptContext}
use socket_collection.Config.{SocketConfig, Priority, default_config}
use socket_collection.OutQueue.{Instant, Clock}
use socket_collection.Mio.{TcpApi}
use socket_collection.Tcp.Inner.{Inner}
use socket_collection.Tcp.Inner

pub record TcpSock {x : Crates} (api : TcpApi x) : Type 0 where
  pub inner : Option (Inner api)

module _ {x : Crates} {api : TcpApi x} where
  -- `TcpSock::default`.
  abbrev pub default : TcpSock api
  default = record { inner = none }

  -- `Debug for TcpSock`.
  abbrev pub fmt : TcpSock api → String
  fmt sock = elim sock.inner [
    | none ↦ "TcpSock: initialised = false"
    | some s ↦ "TcpSock: initialised = true"
  ]

  abbrev pub wrap : api.Stream → TcpSock api
  wrap stream = record { inner = some (Inner.new stream) }

  pub wrap_with_conf : api.Stream → SocketConfig x → TcpSock api
  wrap_with_conf stream conf = record { inner = some (Inner.new_with_conf stream conf) }

  -- `connect_with_conf` on the result of `TcpStream::connect`.
  connected : SocketConfig x → Result IoError api.Stream → Res x (TcpSock api)
  unfolding wrap_with_conf
  connected conf (ok stream) = ok (wrap_with_conf stream conf)
  connected conf (err e) = err (io e)

  pub connect_with_conf : x.SocketAddr → SocketConfig x → Res x (TcpSock api)
  unfolding connected
  connect_with_conf addr conf = connected conf (api.connect addr)

  abbrev pub connect : x.SocketAddr → Res x (TcpSock api)
  unfolding connect_with_conf
  connect addr = connect_with_conf addr (default_config x)

  -- `self.inner.as_mut().ok_or(SocketError::UninitialisedSocket)?`, then an operation.
  pub with_inner :
      {A : Type 0} → TcpSock api → (Inner api → Res x A × Inner api) → Res x A × TcpSock api
  with_inner sock f = elim sock.inner [
    | none ↦ (err uninitialised_socket, sock)
    | some s ↦ let (result, s') = f s in (result, record { inner = some s' })
  ]

  -- The same for an operation with a loop.
  pub run_inner :
      {A : Type 0}
      → TcpSock api
      → (Inner api → Run (Res x A × Inner api))
      → Run (Res x A × TcpSock api)
  run_inner sock f = elim sock.inner [
    | none ↦ done (err uninitialised_socket, sock)
    | some s ↦ do (result, s') ← f s; done (result, record { inner = some s' })
  ]

  -- A call of the stream, with the `?` that makes an I/O error a socket error.
  abbrev on_stream :
      {A : Type 0} → (api.Stream → Result IoError A × api.Stream) → Inner api → Res x A × Inner api
  on_stream f s =
      let (result, stream) = f s.stream in (map_err io result, record s { stream = stream })

  -- A question to the stream, which does not change it.
  abbrev ask_stream :
      {A : Type 0} → (api.Stream → Result IoError A) → Inner api → Res x A × Inner api
  ask_stream f s = (map_err io (f s.stream), s)

  pub set_encrypt_ctx : TcpSock api → EncryptContext x → Res x (Unit {0}) × TcpSock api
  unfolding with_inner
  set_encrypt_ctx sock ctx = with_inner sock (λ s. (ok tt, Inner.set_encrypt_ctx s ctx))

  pub set_decrypt_ctx : TcpSock api → DecryptContext x → Res x (Unit {0}) × TcpSock api
  unfolding with_inner
  set_decrypt_ctx sock ctx = with_inner sock (λ s. (ok tt, Inner.set_decrypt_ctx s ctx))

  pub set_linger : TcpSock api → Option ℕ → Res x (Unit {0}) × TcpSock api
  unfolding with_inner
  set_linger sock dur = with_inner sock (on_stream (λ stream. api.set_linger stream dur))

  pub set_ttl : TcpSock api → ℕ → Res x (Unit {0}) × TcpSock api
  unfolding with_inner
  set_ttl sock ttl = with_inner sock (on_stream (λ stream. api.set_ttl stream ttl))

  pub ttl : TcpSock api → Res x ℕ × TcpSock api
  unfolding with_inner
  ttl sock = with_inner sock (ask_stream api.ttl)

  pub local_addr : TcpSock api → Res x x.SocketAddr × TcpSock api
  unfolding with_inner
  local_addr sock = with_inner sock (ask_stream api.local_addr)

  pub peer_addr : TcpSock api → Res x x.SocketAddr × TcpSock api
  unfolding with_inner
  peer_addr sock = with_inner sock (ask_stream api.peer_addr)

  pub take_error : TcpSock api → Res x (Option IoError) × TcpSock api
  unfolding with_inner
  take_error sock = with_inner sock (on_stream api.take_error)

  -- `Evented`: `ok_or_else` with the I/O error, then that of the inner socket.
  evented :
      TcpSock api
      → (Inner api → Result IoError (Unit {0}) × Inner api)
      → Result IoError (Unit {0}) × TcpSock api
  evented sock f = elim sock.inner [
    | none ↦ (err uninitialised_io, sock)
    | some s ↦ let (result, s') = f s in (result, record { inner = some s' })
  ]

  pub register : TcpSock api → api.Registration → Result IoError (Unit {0}) × TcpSock api
  unfolding evented
  register sock r = evented sock (λ s. Inner.register s r)

  pub reregister : TcpSock api → api.Registration → Result IoError (Unit {0}) × TcpSock api
  unfolding evented
  reregister sock r = evented sock (λ s. Inner.reregister s r)

  pub deregister : TcpSock api → api.Poll → Result IoError (Unit {0}) × TcpSock api
  unfolding evented
  deregister sock poll = evented sock (λ s. Inner.deregister s poll)

module _ {x : Crates} {api : TcpApi x} {T : Type 0} (c : Codec x T) (u32 : Codec x ℕ) where
  pub read : ℕ → TcpSock api → Run (Res x (Option T) × TcpSock api)
  unfolding run_inner
  read fuel sock = run_inner sock (Inner.read c u32 fuel)

  pub write :
      ℕ
      → TcpSock api
      → x.Nonce × x.Nonce
      → Clock
      → Instant
      → Option (T × Priority)
      → Run (Res x Bool × TcpSock api)
  unfolding run_inner
  write fuel sock nonces clock now msg =
      run_inner sock (λ s. Inner.write c u32 fuel s nonces clock now msg)
