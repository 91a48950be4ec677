-- ===== src/Udt/Sock.antt =====
-- `UdtSock` of src/udt/udt_sock.rs: the public socket, which may be uninitialised. What its
-- `Handle` refers to is an argument of the operations that use it.
pub mod Setup
pub mod Uninitialised
pub mod Registration
use socket_collection.Base.{
  ℕ, ◌*◌, Bool, true, false, List, [], ◌∷◌, Option, none, some, Result, ok, err, map_err, Run, done,
  panic, ◌>>=◌,
}
use socket_collection.Env.{Crates}
use socket_collection.Error.{IoError, SocketError, Res, uninitialised_socket, uninitialised_io}
use socket_collection.Config.{Priority}
use socket_collection.OutQueue.{Instant, Clock}
use socket_collection.Mio.{UdpApi}
use socket_collection.Udp.Sock.{UdpSock, into_underlying_sock}
use socket_collection.Udt.Api.{
  UdtApi, UdtOption, udp_sndbuf, udp_rcvbuf, udt_rcvsyn, udt_sndsyn, udt_rendezvous, Limits,
  ByteOrder, StreamCodec,
}
use socket_collection.Udt.IoError.{into_io_error}
use socket_collection.Udt.EventLoop.{
  Token, Ready, EpollApi, WeakActions, handle_register, handle_deregister,
}
use socket_collection.Udt.Inner.{Inner}
use socket_collection.Udt.Inner

-- `UDP_SNDBUF_SIZE` and `UDP_RCVBUF_SIZE`.
abbrev pub udp_sndbuf_size : ℕ
udp_sndbuf_size = 512 * 1024

abbrev pub udp_rcvbuf_size : ℕ
udp_rcvbuf_size = 512 * 1024

pub record UdtSock {x : Crates} (api : UdtApi x) : Type 0 where
  pub inner : Option (Inner api)

module _ {x : Crates} {api : UdtApi x} where
  -- `UdtSock::default`.
  abbrev pub default : UdtSock api
  default = record { inner = none }

  -- The socket that `wrap_std_sock` makes of its stream.
  abbrev pub wrapped : api.UdtSocket → UdtSock api
  wrapped stream = record {
    inner = some (record {
      stream = stream;
      read_buffer = [];
      read_len = 0;
      write_queue = [];
      current_write = none;
    });
  }

module _ {x : Crates} (api : UdtApi x) where
  -- The `?` after a call of the library: the rest is done if it succeeded.
  abbrev pub and_then :
      {A B : Type 0}
      → Result api.Failure A × api.Net
      → (A → api.Net → Res x B × api.Net)
      → Res x B × api.Net
  and_then (ok a, net) rest = rest a net
  and_then (err e, net) rest = (err (api.into_socket_error e), net)

module _ {x : Crates} {api : UdtApi x} where
  -- `wrap_std_sock` below the creation of the stream: the calls of `setsockopt`, then `bind_from`.
  unfoldable pub configure :
      api.UdtSocket → List UdtOption → api.StdSocket → api.Net → Res x (UdtSock api) × api.Net
  configure stream [] udp_sock net =
      and_then api (api.bind_from stream udp_sock net) (λ u net'. (ok (wrapped stream), net'))
  configure stream (o ∷ options) udp_sock net =
      and_then api (api.setsockopt stream o net) (λ u net'. configure stream options udp_sock net')

  unfoldable pub wrap_std_sock : api.StdSocket → api.Net → Res x (UdtSock api) × api.Net
  wrap_std_sock udp_sock net = and_then api (api.new net) (λ stream net'.
      configure stream
        (udp_sndbuf udp_sndbuf_size
          ∷ udp_rcvbuf udp_rcvbuf_size
          ∷ udt_rcvsyn false
          ∷ udt_sndsyn false
          ∷ udt_rendezvous true
          ∷ [])
        udp_sock net')

  -- `self.inner.as_ref().ok_or(SocketError::UninitialisedSocket)?`, then a call of the library.
  pub with_stream :
      {A : Type 0}
      → UdtSock api
      → (api.UdtSocket → api.Net → Result api.Failure A × api.Net)
      → api.Net
      → Res x A × api.Net
  with_stream sock f net = elim sock.inner [
    | none ↦ (err uninitialised_socket, net)
    | some s ↦ let (result, net') = f s.stream net in (map_err api.into_socket_error result, net')
  ]

  pub connect : UdtSock api → x.SocketAddr → api.Net → Res x (Unit {0}) × api.Net
  unfolding with_stream
  connect sock addr net = with_stream sock (λ stream. api.connect stream addr) net

  pub peer_addr : UdtSock api → api.Net → Res x x.SocketAddr × api.Net
  unfolding with_stream
  peer_addr sock net = with_stream sock (λ stream n. (api.getpeername stream n, n)) net

  -- The body of an initialised socket is `unimplemented!()`.
  pub take_error : UdtSock api → Run (Res x (Option IoError))
  take_error sock = elim sock.inner [ none ↦ done (err uninitialised_socket) | some s ↦ panic ]

  -- `as_mut().ok_or(SocketError::UninitialisedSocket)?`, then an operation with a loop.
  pub run_inner :
      {A : Type 0}
      → UdtSock api
      → api.Net
      → (Inner api → api.Net → Run ((Res x A × Inner api) × api.Net))
      → Run ((Res x A × UdtSock api) × api.Net)
  run_inner sock net f = elim sock.inner [
    | none ↦ done ((err uninitialised_socket, sock), net)
    | some s ↦ do ((result, s'), net') ← f s net; done ((result, record { inner = some s' }), net')
  ]

module _ {x : Crates} (api : UdtApi x) (udp : UdpApi x) (into_raw_fd : udp.Sock → ℕ)
    (from_raw_fd : ℕ → api.StdSocket) where
  -- On unix.
  mio_to_std_udp_sock : udp.Sock → api.StdSocket
  mio_to_std_udp_sock socket = from_raw_fd (into_raw_fd socket)

  pub wrap_mio_sock : udp.Sock → api.Net → Res x (UdtSock api) × api.Net
  unfolding wrap_std_sock mio_to_std_udp_sock
  wrap_mio_sock udp_sock net = wrap_std_sock (mio_to_std_udp_sock udp_sock) net

  -- `wrap_udp_sock` on the result of `into_underlying_sock`.
  wrap_underlying : Res x udp.Sock → api.Net → Res x (UdtSock api) × api.Net
  unfolding wrap_mio_sock
  wrap_underlying (ok sock) net = wrap_mio_sock sock net
  wrap_underlying (err e) net = (err e, net)

  abbrev pub wrap_udp_sock : UdpSock udp → api.Net → Res x (UdtSock api) × api.Net
  unfolding wrap_underlying
  wrap_udp_sock udp_sock net = wrap_underlying (into_underlying_sock udp_sock) net

module _ {x : Crates} {api : UdtApi x} {T : Type 0} (limits : Limits) (order : ByteOrder)
    (c : StreamCodec x T) where
  pub read : ℕ → UdtSock api → api.Net → Run ((Res x (Option T) × UdtSock api) × api.Net)
  unfolding run_inner
  read fuel sock net = run_inner sock net (Inner.read limits order c fuel)

  pub write :
      ℕ
      → UdtSock api
      → api.Net
      → Clock
      → Instant
      → Option (T × Priority)
      → Run ((Res x Bool × UdtSock api) × api.Net)
  unfolding run_inner
  write fuel sock net clock now msg =
      run_inner sock net (λ s n. Inner.write limits order c fuel s n clock now msg)

module _ {x : Crates} {api : UdtApi x} (epoll : EpollApi api) where
  -- `Evented for Inner`: the error of the handle becomes an I/O error.
  unfoldable pub inner_register :
      Inner api → WeakActions epoll → Token → Ready → Result IoError (Unit {0}) × WeakActions epoll
  inner_register s actions token interest =
      let (result, actions') = handle_register epoll actions s.stream token interest in
      (map_err (λ e. into_io_error api.debug (some e) "") result, actions')

  inner_deregister : Inner api → WeakActions epoll → Result IoError (Unit {0}) × WeakActions epoll
  inner_deregister s actions =
      let (result, actions') = handle_deregister epoll actions s.stream in
      (map_err (λ e. into_io_error api.debug (some e) "") result, actions')

  -- `Evented for UdtSock`.
  unfoldable pub register :
      UdtSock api
      → WeakActions epoll
      → Token
      → Ready
      → Result IoError (Unit {0}) × WeakActions epoll
  unfolding inner_register
  register sock actions token interest = elim sock.inner [
    | none ↦ (err uninitialised_io, actions)
    | some s ↦ inner_register s actions token interest
  ]

  -- `reregister` of the inner socket is its `register`.
  abbrev inner_reregister :
      Inner api → WeakActions epoll → Token → Ready → Result IoError (Unit {0}) × WeakActions epoll
  inner_reregister s actions token interest = inner_register s actions token interest

  pub reregister :
      UdtSock api
      → WeakActions epoll
      → Token
      → Ready
      → Result IoError (Unit {0}) × WeakActions epoll
  unfolding inner_register
  reregister sock actions token interest = elim sock.inner [
    | none ↦ (err uninitialised_io, actions)
    | some s ↦ inner_reregister s actions token interest
  ]

  pub deregister : UdtSock api → WeakActions epoll → Result IoError (Unit {0}) × WeakActions epoll
  unfolding inner_deregister
  deregister sock actions = elim sock.inner [
    | none ↦ (err uninitialised_io, actions)
    | some s ↦ inner_deregister s actions
  ]
