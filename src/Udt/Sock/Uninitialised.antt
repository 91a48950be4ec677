-- ===== src/Udt/Sock/Uninitialised.antt =====
-- The default `UdtSock` of src/udt/udt_sock.rs, which has no stream.
use socket_collection.Base.{ℕ, ◌≡◌, refl, Option, err, done}
use socket_collection.Env.{Crates}
use socket_collection.Error.{uninitialised_socket, uninitialised_io}
use socket_collection.Config.{Priority}
use socket_collection.OutQueue.{Instant, Clock}
use socket_collection.Udt.Api.{UdtApi, Limits, ByteOrder, StreamCodec}
use socket_collection.Udt.EventLoop.{Token, Ready, EpollApi, WeakActions}
use socket_collection.Udt.Sock.{
  UdtSock, default, connect, peer_addr, take_error, read, write, register, reregister, deregister,
}

-- Every operation on an uninitialised socket returns `UninitialisedSocket`, or the I/O error of
-- that text, whatever its arguments; it ends without fuel, calls neither the library nor the event
-- loop, and the socket stays uninitialised.
pub uninitialised_udt :
    {x : Crates} {api : UdtApi x} {T : Type 0} (epoll : EpollApi api) (limits : Limits)
    → (order : ByteOrder) (c : StreamCodec x T) (fuel : ℕ) (net : api.Net) (addr : x.SocketAddr)
    → (clock : Clock) (now : Instant) (msg : Option (T × Priority)) (actions : WeakActions epoll)
    → (token : Token) (interest : Ready)
    → let sock : UdtSock api = default in
      (connect sock addr net ≡ (err uninitialised_socket, net))
      × (peer_addr sock net ≡ (err uninitialised_socket, net))
      × (take_error sock ≡ done (err uninitialised_socket))
      × (read limits order c fuel sock net ≡ done ((err uninitialised_socket, sock), net))
      × (write limits order c fuel sock net clock now msg
          ≡ done ((err uninitialised_socket, sock), net))
      × (register epoll sock actions token interest ≡ (err uninitialised_io, actions))
      × (reregister epoll sock actions token interest ≡ (err uninitialised_io, actions))
      × (deregister epoll sock actions ≡ (err uninitialised_io, actions))
unfolding connect peer_addr take_error read write register reregister deregister
uninitialised_udt epoll limits order c fuel net addr clock now msg actions token interest =
    (refl, refl, refl, refl, refl, refl, refl, refl)
