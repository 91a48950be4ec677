-- ===== src/Tcp/Sock/Uninitialised.antt =====
-- The default `TcpSock` of src/tcp.rs, which has no stream.
use socket_collection.Base.{ℕ, ◌≡◌, refl, Option, err, done}
use socket_collection.Env.{Crates, Codec}
use socket_collection.Error.{uninitialised_socket, uninitialised_io}
use socket_collection.Crypto.{EncryptContext, DecryptContext}
use socket_collection.Config.{Priority}
use socket_collection.OutQueue.{Instant, Clock}
use socket_collection.Mio.{TcpApi}
use socket_collection.Tcp.Sock.{
  TcpSock, default, set_encrypt_ctx, set_decrypt_ctx, set_linger, set_ttl, ttl, local_addr,
  peer_addr, take_error, register, reregister, deregister, read, write,
}

-- Every operation on an uninitialised socket returns `UninitialisedSocket`, or the I/O error of
-- that text, whatever its arguments; it ends without fuel, and the socket stays uninitialised.
pub uninitialised_lem :
    {x : Crates} {api : TcpApi x} {T : Type 0} (c : Codec x T) (u32 : Codec x ℕ) (fuel : ℕ)
    → (enc : EncryptContext x) (dec : DecryptContext x) (linger : Option ℕ) (hops : ℕ)
    → (r : api.Registration) (poll : api.Poll) (nonces : x.Nonce × x.Nonce) (clock : Clock)
    → (now : Instant) (msg : Option (T × Priority))
    → let sock : TcpSock api = default in
      (set_encrypt_ctx sock enc ≡ (err uninitialised_socket, sock))
      × (set_decrypt_ctx sock dec ≡ (err uninitialised_socket, sock))
      × (set_linger sock linger ≡ (err uninitialised_socket, sock))
      × (set_ttl sock hops ≡ (err uninitialised_socket, sock))
      × (ttl sock ≡ (err uninitialised_socket, sock))
      × (local_addr sock ≡ (err uninitialised_socket, sock))
      × (peer_addr sock ≡ (err uninitialised_socket, sock))
      × (take_error sock ≡ (err uninitialised_socket, sock))
      × (register sock r ≡ (err uninitialised_io, sock))
      × (reregister sock r ≡ (err uninitialised_io, sock))
      × (deregister sock poll ≡ (err uninitialised_io, sock))
      × (read c u32 fuel sock ≡ done (err uninitialised_socket, sock))
      × (write c u32 fuel sock nonces clock now msg ≡ done (err uninitialised_socket, sock))
unfolding set_encrypt_ctx set_decrypt_ctx set_linger set_ttl ttl local_addr peer_addr take_error
    register reregister deregister read write
uninitialised_lem c u32 fuel enc dec linger hops r poll nonces clock now msg =
    (refl, refl, refl, refl, refl, refl, refl, refl, refl, refl, refl, refl, refl)
