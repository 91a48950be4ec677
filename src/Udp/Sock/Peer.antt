-- ===== src/Udp/Sock/Peer.antt =====
-- The peer that `UdpSock` of src/udp.rs remembers.
use socket_collection.Base.{◌≡◌, refl, Option, none, some, Result, ok, err}
use socket_collection.Env.{Crates}
use socket_collection.Error.{IoError, Res}
use socket_collection.Mio.{UdpApi}
use socket_collection.Udp.Inner.{Inner}
use socket_collection.Udp.Sock.{UdpSock, connect, connected, peer_addr, known_peer, with_inner}

-- The peer after a `connect`: the new one if it succeeded, and else the old one.
abbrev pub peer_after :
    {x : Crates} → Res x (Unit {0}) → x.SocketAddr → Res x x.SocketAddr → Res x x.SocketAddr
peer_after (ok u) addr old = ok addr
peer_after (err e) addr old = old

module _ {x : Crates} {api : UdpApi x} where
  connected-peer :
      (s : Inner api) (addr : x.SocketAddr) (r : Result IoError (Unit {0}) × api.Sock)
      → let after = connected s addr r in
        known_peer after.1.peer ≡ peer_after after.0 addr (known_peer s.peer)
  unfolding connected known_peer
  connected-peer s addr (ok u, sock) = refl
  connected-peer s addr (err e, sock) = refl

  -- After `connect`, whatever it answers, `peer_addr` is the address given if it succeeded, and is
  -- what it was before, an error included, if it failed.
  pub peer_addr-connect :
      (sock : UdpSock api) (addr : x.SocketAddr)
      → (peer_addr (connect sock addr).1).0
        ≡ peer_after (connect sock addr).0 addr (peer_addr sock).0
  unfolding connect peer_addr with_inner
  peer_addr-connect sock addr = at_inner sock.inner
    where
      at_inner :
          (o : Option (Inner api))
          → let s : UdpSock api = record { inner = o } in
            (peer_addr (connect s addr).1).0 ≡ peer_after (connect s addr).0 addr (peer_addr s).0
      at_inner none = refl
      at_inner (some s) = connected-peer s addr (api.connect s.sock addr)
