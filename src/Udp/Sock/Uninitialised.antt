-- ===== src/Udp/Sock/Uninitialised.antt =====
-- The default `UdpSock` of src/udp.rs, which has no socket.
use socket_collection.Base.{ℕ, ◌≡◌, refl, Option, err, done}
use socket_collection.Env.{Crates, Codec}
use socket_collection.Error.{uninitialised_socket, uninitialised_io}
use socket_collection.Crypto.{EncryptContext, DecryptContext}
use socket_collection.Config.{Priority}
use socket_collection.OutQueue.{Instant, Clock}
use socket_collection.Mio.{UdpApi}
use socket_collection.Udp.Sock.{
  UdpSock, default, set_encrypt_ctx, set_decrypt_ctx, connect, local_addr, peer_addr, set_ttl, ttl,
  take_error, into_underlying_sock, register, reregister, deregister, read, read_frm, write,
  write_to,
}

-- Every operation on an uninitialised socket returns `UninitialisedSocket`, or the I/O error of
-- that text, whatever its arguments; it ends without fuel, and the socket stays uninitialised.
pub uninitialised_udp :
    {x : Crates} {api : UdpApi x} {T : Type 0} (c : Codec x T) (fuel : ℕ)
    → (enc : EncryptContext x) (dec : DecryptContext x) (addr : x.SocketAddr) (hops : ℕ)
    → (r : api.Registration) (poll : api.Poll) (nonce : x.Nonce) (clock : Clock) (now : Instant)
    → (msg : Option (T × Priority)) (msg_to : Option (T × x.SocketAddr × Priority))
    → let sock : UdpSock api = default in
      (set_encrypt_ctx sock enc ≡ (err uninitialised_socket, sock))
      × (set_decrypt_ctx sock dec ≡ (err uninitialised_socket, sock))
      × (connect sock addr ≡ (err uninitialised_socket, sock))
      × (local_addr sock ≡ (err uninitialised_socket, sock))
      × (peer_addr sock ≡ (err uninitialised_socket, sock))
      × (set_ttl sock hops ≡ (err uninitialised_socket, sock))
      × (ttl sock ≡ (err uninitialised_socket, sock))
      × (take_error sock ≡ (err uninitialised_socket, sock))
      × (into_underlying_sock sock ≡ err uninitialised_socket)
      × (register sock r ≡ (err uninitialised_io, sock))
      × (reregister sock r ≡ (err uninitialised_io, sock))
      × (deregister sock poll ≡ (err uninitialised_io, sock))
      × (read c fuel sock ≡ done (err uninitialised_socket, sock))
      × (read_frm c fuel sock ≡ done (err uninitialised_socket, sock))
      × (write c fuel sock nonce clock now msg ≡ done (err uninitialised_socket, sock))
      × (write_to c fuel sock nonce clock now msg_to ≡ done (err uninitialised_socket, sock))
unfolding set_encrypt_ctx set_decrypt_ctx connect local_addr peer_addr set_ttl ttl take_error
    into_underlying_sock register reregister deregister read read_frm write write_to
uninitialised_udp c fuel enc dec addr hops r poll nonce clock now msg msg_to =
    (refl, refl, refl, refl, refl, refl, refl, refl, refl, refl, refl, refl, refl, refl, refl, refl)
