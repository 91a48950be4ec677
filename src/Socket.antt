-- ===== src/Socket.antt =====
-- src/socket.rs: the socket that is a UDP or a TCP socket.
use socket_collection.Base.{ℕ, Option, Bool, ok, Run, done, ◌>>=◌}
use socket_collection.Env.{Crates, Codec}
use socket_collection.Error.{IoError, Res}
use socket_collection.Crypto.{EncryptContext, DecryptContext}
use socket_collection.Config.{Priority}
use socket_collection.OutQueue.{Instant, Clock}
use socket_collection.Mio.{TcpApi, UdpApi}
use socket_collection.Tcp.Sock.{TcpSock}
use socket_collection.Tcp.Sock as Tcp
use socket_collection.Udp.Sock.{UdpSock}
use socket_collection.Udp.Sock as Udp

pub data Socket {x : Crates} (u : UdpApi x) (t : TcpApi x) : Type 0 where
  udp : UdpSock u → Socket u t
  tcp : TcpSock t → Socket u t

module _ {x : Crates} {u : UdpApi x} {t : TcpApi x} where
  -- `From<UdpSock>` and `From<TcpSock>`.
  abbrev pub from_udp_sock : UdpSock u → Socket u t
  from_udp_sock sock = udp sock

  abbrev pub from_tcp_sock : TcpSock t → Socket u t
  from_tcp_sock sock = tcp sock

  -- The answer of one of the two sockets, which takes the place of the old one.
  abbrev from_udp : {A : Type 0} → A × UdpSock u → A × Socket u t
  from_udp (a, sock) = (a, udp sock)

  abbrev from_tcp : {A : Type 0} → A × TcpSock t → A × Socket u t
  from_tcp (a, sock) = (a, tcp sock)

  abbrev pub set_encrypt_ctx : Socket u t → EncryptContext x → Res x (Unit {0}) × Socket u t
  set_encrypt_ctx (udp sock) enc_ctx = from_udp (Udp.set_encrypt_ctx sock enc_ctx)
  set_encrypt_ctx (tcp sock) enc_ctx = from_tcp (Tcp.set_encrypt_ctx sock enc_ctx)

  abbrev pub set_decrypt_ctx : Socket u t → DecryptContext x → Res x (Unit {0}) × Socket u t
  set_decrypt_ctx (udp sock) dec_ctx = from_udp (Udp.set_decrypt_ctx sock dec_ctx)
  set_decrypt_ctx (tcp sock) dec_ctx = from_tcp (Tcp.set_decrypt_ctx sock dec_ctx)

  abbrev pub local_addr : Socket u t → Res x x.SocketAddr × Socket u t
  local_addr (udp sock) = from_udp (Udp.local_addr sock)
  local_addr (tcp sock) = from_tcp (Tcp.local_addr sock)

  abbrev pub peer_addr : Socket u t → Res x x.SocketAddr × Socket u t
  peer_addr (udp sock) = from_udp (Udp.peer_addr sock)
  peer_addr (tcp sock) = from_tcp (Tcp.peer_addr sock)

  abbrev pub set_ttl : Socket u t → ℕ → Res x (Unit {0}) × Socket u t
  set_ttl (udp sock) ttl = from_udp (Udp.set_ttl sock ttl)
  set_ttl (tcp sock) ttl = from_tcp (Tcp.set_ttl sock ttl)

  abbrev pub ttl : Socket u t → Res x ℕ × Socket u t
  ttl (udp sock) = from_udp (Udp.ttl sock)
  ttl (tcp sock) = from_tcp (Tcp.ttl sock)

  abbrev pub take_error : Socket u t → Res x (Option IoError) × Socket u t
  take_error (udp sock) = from_udp (Udp.take_error sock)
  take_error (tcp sock) = from_tcp (Tcp.take_error sock)

  -- Nothing is done for a UDP socket.
  abbrev pub set_linger : Socket u t → Option ℕ → Res x (Unit {0}) × Socket u t
  set_linger (udp sock) dur = (ok tt, udp sock)
  set_linger (tcp sock) dur = from_tcp (Tcp.set_linger sock dur)

module _ {x : Crates} {u : UdpApi x} {t : TcpApi x} {T : Type 0} (c : Codec x T)
    (u32 : Codec x ℕ) where
  abbrev pub read : ℕ → Socket u t → Run (Res x (Option T) × Socket u t)
  read fuel (udp sock) = do r ← Udp.read c fuel sock; done (from_udp r)
  read fuel (tcp sock) = do r ← Tcp.read c u32 fuel sock; done (from_tcp r)

  -- The UDP socket draws one nonce for a message, and the TCP socket two.
  abbrev pub write :
      ℕ
      → Socket u t
      → x.Nonce × x.Nonce
      → Clock
      → Instant
      → Option (T × Priority)
      → Run (Res x Bool × Socket u t)
  write fuel (udp sock) (n, _) clock now msg = do
    r ← Udp.write c fuel sock n clock now msg
    done (from_udp r)
  write fuel (tcp sock) nonces clock now msg = do
    r ← Tcp.write c u32 fuel sock nonces clock now msg
    done (from_tcp r)
