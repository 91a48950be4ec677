-- ===== src/Udp/Inner/Reach.antt =====
-- The states of `Inner` in src/udp.rs that calls lead to, and that none of them panics.
use socket_collection.Base.{ℕ, ◌≡◌, ◌≢◌, refl, subst, Bool, Option, done, panic}
use socket_collection.Base.Loop.{Safe}
use socket_collection.Env.{Crates, Codec}
use socket_collection.Error.{Res}
use socket_collection.Crypto.{EncryptContext, DecryptContext}
use socket_collection.Config.{SocketConfig, Priority}
use socket_collection.OutQueue.{Instant, Clock}
use socket_collection.OutQueue.Refinement.{new-IsWellFormed}
use socket_collection.Mio.{UdpApi}
use socket_collection.Udp.Inner.{
  Inner, new, set_encrypt_ctx, set_decrypt_ctx, read, read_frm, write, write_to,
}
use socket_collection.Udp.Inner.Safety.{
  IsSound, LeavesSound, read-Safe, read_frm-Safe, write-Safe, write_to-Safe,
}

module _ {x : Crates} {api : UdpApi x} {T : Type 0} (c : Codec x T) where
  -- The states that calls with messages of one type lead to.
  pub data UdpReach : Inner api → Type 0 where
    created : (sock : api.Sock) (conf : SocketConfig x) → UdpReach (new sock conf)
    encrypts :
        {s : Inner api} (ctx : EncryptContext x) → UdpReach s → UdpReach (set_encrypt_ctx s ctx)
    decrypts :
        {s : Inner api} (ctx : DecryptContext x) → UdpReach s → UdpReach (set_decrypt_ctx s ctx)
    -- `connect` and the other calls of the `mio` socket.
    calls :
        {s : Inner api} (sock : api.Sock) (peer : Option x.SocketAddr)
        → UdpReach s
        → UdpReach (record s { sock = sock; peer = peer })
    reads :
        {s s' : Inner api} (fuel : ℕ) (r : Res x (Option T))
        → UdpReach s
        → read c fuel s ≡ done (r, s')
        → UdpReach s'
    reads_frm :
        {s s' : Inner api} (fuel : ℕ) (r : Res x (Option (T × x.SocketAddr)))
        → UdpReach s
        → read_frm c fuel s ≡ done (r, s')
        → UdpReach s'
    writes :
        {s s' : Inner api} (fuel : ℕ) (nonce : x.Nonce) (clock : Clock) (now : Instant)
        → (msg : Option (T × Priority)) (r : Res x Bool) → UdpReach s
        → write c fuel s nonce clock now msg ≡ done (r, s')
        → UdpReach s'
    writes_to :
        {s s' : Inner api} (fuel : ℕ) (nonce : x.Nonce) (clock : Clock) (now : Instant)
        → (msg : Option (T × x.SocketAddr × Priority)) (r : Res x Bool) → UdpReach s
        → write_to c fuel s nonce clock now msg ≡ done (r, s')
        → UdpReach s'

  UdpReach-IsSound : {s : Inner api} → UdpReach s → IsSound s
  UdpReach-IsSound (created sock conf) =
      ((new-IsWellFormed _ conf refl).0, (new-IsWellFormed _ conf refl).0)
  UdpReach-IsSound (encrypts ctx d) = UdpReach-IsSound d
  UdpReach-IsSound (decrypts ctx d) = UdpReach-IsSound d
  UdpReach-IsSound (calls sock peer d) = UdpReach-IsSound d
  UdpReach-IsSound (reads {s = s} fuel r d e) =
      subst (Safe LeavesSound) e (read-Safe c fuel s (UdpReach-IsSound d))
  UdpReach-IsSound (reads_frm {s = s} fuel r d e) =
      subst (Safe LeavesSound) e (read_frm-Safe c fuel s (UdpReach-IsSound d))
  UdpReach-IsSound (writes {s = s} fuel nonce clock now msg r d e) =
      subst (Safe LeavesSound) e (write-Safe c fuel s nonce clock now msg (UdpReach-IsSound d))
  UdpReach-IsSound (writes_to {s = s} fuel nonce clock now msg r d e) =
      subst (Safe LeavesSound) e (write_to-Safe c fuel s nonce clock now msg (UdpReach-IsSound d))

  -- In every state that creation, changes of the contexts, calls of the underlying socket, reads
  -- and writes lead to, both queues are well-formed, and none of `read`, `read_frm`, `write` and
  -- `write_to` panics, whatever the socket, the serialisation and the encryption answer, and on
  -- any fuel.
  pub UdpReach-ne-panic :
      {s : Inner api}
      → UdpReach s
      → IsSound s
        × ((fuel : ℕ) → read c fuel s ≢ panic)
        × ((fuel : ℕ) → read_frm c fuel s ≢ panic)
        × ((fuel : ℕ) (nonce : x.Nonce) (clock : Clock) (now : Instant)
              (msg : Option (T × Priority))
            → write c fuel s nonce clock now msg ≢ panic)
        × ((fuel : ℕ) (nonce : x.Nonce) (clock : Clock) (now : Instant)
              (msg : Option (T × x.SocketAddr × Priority))
            → write_to c fuel s nonce clock now msg ≢ panic)
  UdpReach-ne-panic {s} d =
      let w = UdpReach-IsSound d in
      (
        w,
        λ fuel e. subst (Safe LeavesSound) e (read-Safe c fuel s w),
        λ fuel e. subst (Safe LeavesSound) e (read_frm-Safe c fuel s w),
        λ fuel nonce clock now msg e.
            subst (Safe LeavesSound) e (write-Safe c fuel s nonce clock now msg w),
        λ fuel nonce clock now msg e.
            subst (Safe LeavesSound) e (write_to-Safe c fuel s nonce clock now msg w),
      )
