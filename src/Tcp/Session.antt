-- ===== src/Tcp/Session.antt =====
-- Both ends of a connection of src/tcp.rs over a whole session: messages of all priorities are
-- written one after the other, some are dropped in the queue, whenever the socket is polled it
-- sends what the stream takes, and the other end reads what has come.
pub mod Flushed
pub mod Calls
pub mod Received
pub mod Uniform
use socket_collection.Base.{
  done-injective, ℕ, suc, ◌+◌, ◌≤◌, ◌<◌, ◌≡◌, refl, sym, ap, ap₂, subst, ◌∙◌, List, [], ◌∷◌, ◌++◌,
  map, Option, none, some, ok, err, Bool, true, length, concat, done, arith, append-nil, length-map,
}
use socket_collection.Env.{Crates, Codec, Bytes, Keys, RoundTrips, FixedSizes}
use socket_collection.Error.{IoError, SocketError, is_retry}
use socket_collection.Crypto.{EncryptContext, enc_encrypted_size_len, Matching}
use socket_collection.Config.{Priority}
use socket_collection.OutQueue.{Instant, Clock, push_at, drop_expired}
use socket_collection.OutQueue.Order.{Entry}
use socket_collection.OutQueue.Refinement.{IsWellFormed, queued}
use socket_collection.OutQueue.Waiting.{waiting, current, messages}
use socket_collection.OutQueue.Fates.{Survives}
use socket_collection.OutQueue.Ledger.{Ledger-nil}
use socket_collection.Mio.{TcpApi}
use socket_collection.Tcp.Frame.{serialize_with_len, u32_mod}
use socket_collection.Tcp.Inner.{Inner, write}
use socket_collection.Tcp.Inner.Pending.{SendLaws}
use socket_collection.Tcp.Inner.Write.{write-enqueued, write-none, write-err}
use socket_collection.Tcp.Inner.Receive.{Receives, failed}
use socket_collection.Tcp.Delivery.{Frames, no_frames, delivered, try_reads-Frames}
use socket_collection.Tcp.Session.Calls.{
  IsFramed, Forall₂-Frames, Written, drop_expired-Written, push_at-Written, flush-Written,
  passed-Written,
}
use mathlib.Core.List.{Forall₂, Sublistᴰ, append-eq-nil_iff, map-eq-nil_iff}
use mathlib.Core.List.Forall₂
use mathlib.Core.List.Sublistᴰ

module _ {x : Crates} {T : Type 0} (c : Codec x T) (u32 : Codec x ℕ) {api : TcpApi x} (limit : ℕ)
    (laws : SendLaws api) where
  -- The socket that `s0` has become after `write` was called with these messages, each with its
  -- priority and the instant at which it was queued, with messages that could not be serialised,
  -- and with none, in this order. Otherwise the calls returned `Ok`, true or false. In between,
  -- the socket may change in other ways, as when it is read or the system makes room, but not what
  -- it has sent or has still to send. The payloads of the messages are nonempty, within the limit,
  -- and of a length that fits a `u32`.
  pub data Session (s0 : Inner api) : List (Entry T) → Inner api → Type 0 where
    opened : Session s0 [] s0
    wrote :
        {vs : List (Entry T)} {s s' : Inner api} (sent_all : Bool) (fuel : ℕ) (clock : Clock)
        (m : Entry T) (bytes : Bytes) (framed : IsFramed c u32 limit s.enc_ctx m.msg bytes)
        → Session s0 vs s
        → write c u32 fuel s framed.nonces clock m.queued_at (some (m.msg, m.priority))
          ≡ done (ok sent_all, s')
        → Session s0 (vs ++ (m ∷ [])) s'
    refused :
        {vs : List (Entry T)} {s s' : Inner api} (fuel : ℕ) (nonces : x.Nonce × x.Nonce)
        (clock : Clock) (now : Instant) (v : T) (p : Priority) (e : SocketError x)
        → Session s0 vs s
        → serialize_with_len c u32 s.enc_ctx nonces v ≡ err e
        → write c u32 fuel s nonces clock now (some (v, p)) ≡ done (err e, s')
        → Session s0 vs s'
    polled :
        {vs : List (Entry T)} {s s' : Inner api} (sent_all : Bool) (fuel : ℕ)
        (nonces : x.Nonce × x.Nonce) (clock : Clock) (now : Instant)
        → Session s0 vs s
        → write c u32 fuel s nonces clock now none ≡ done (ok sent_all, s')
        → Session s0 vs s'
    passed :
        {vs : List (Entry T)} {s s' : Inner api}
        → Session s0 vs s
        → s'.out_queue ≡ s.out_queue
        → s'.current_write ≡ s.current_write
        → s'.enc_ctx ≡ s.enc_ctx
        → laws.wire s'.stream ≡ laws.wire s.stream
        → Session s0 vs s'

  pub Session-Written :
      {s0 : Inner api} {vs : List (Entry T)} {s : Inner api}
      → Written c u32 limit laws s0 [] s0
      → Session s0 vs s
      → Written c u32 limit laws s0 vs s
  Session-Written fresh opened = fresh
  Session-Written {s0} fresh (wrote {vs} {s} {s'} sent_all fuel clock m bytes framed before h) =
      let w = drop_expired-Written c u32 limit laws s0 s vs clock (Session-Written fresh before) in
      let d : Inner api = record s { out_queue = (drop_expired clock s.out_queue).1 } in
      flush-Written c u32 limit laws s0
        (record d { out_queue = push_at d.out_queue m.queued_at bytes m.priority }) s'
        (vs ++ (m ∷ [])) fuel sent_all (push_at-Written c u32 limit laws s0 d vs m bytes w framed)
        (sym (
            write-enqueued c u32 laws fuel s framed.nonces clock m.queued_at m.msg m.priority bytes
              framed.framed)
          ∙ h)
  Session-Written {s0} fresh (refused {vs} {s} {s'} fuel nonces clock now v p e before bad h) =
      let w = drop_expired-Written c u32 limit laws s0 s vs clock (Session-Written fresh before) in
      subst (Written c u32 limit laws s0 vs)
        (ap (λ r. r.1)
          (done-injective (sym (write-err c u32 fuel s nonces clock now v p e bad) ∙ h)))
        w
  Session-Written {s0} fresh (polled {vs} {s} {s'} sent_all fuel nonces clock now before h) =
      let w = drop_expired-Written c u32 limit laws s0 s vs clock (Session-Written fresh before) in
      flush-Written c u32 limit laws s0
        (record s { out_queue = (drop_expired clock s.out_queue).1 }) s' vs fuel sent_all w
        (sym (write-none c u32 laws fuel s nonces clock now) ∙ h)
  Session-Written {s0} fresh (passed {vs} {s} {s'} before queue begun ctx wire) =
      passed-Written c u32 limit laws s0 s s' vs queue begun ctx wire (Session-Written fresh before)

  -- When nothing waits, the wire holds the frames of all messages that survive.
  pub all_sent :
      (s0 s : Inner api) (vs : List (Entry T))
      → Written c u32 limit laws s0 vs s
      → waiting s.current_write s.out_queue ≡ []
      → (us : List (Entry T)) × (frames : List Bytes) × Survives s0.out_queue.conf.msg_drop_priority
          us vs
        × Frames c u32 s0.enc_ctx limit (messages us) frames
        × (laws.wire s.stream ≡ concat frames)
  all_sent s0 s vs w sent =
      let (no_current, no_messages) = append-eq-nil_iff.0 sent in
      let (us, survives, framed) =
        Ledger-nil (IsFramed c u32 limit s0.enc_ctx) s0.out_queue.conf.msg_drop_priority vs w.gone
          (queued s.out_queue) w.tracks.ledger ((map-eq-nil_iff (λ f. f.msg)).0 no_messages) in
      (
        us,
        messages w.gone,
        survives,
        Forall₂-Frames c u32 limit s0.enc_ctx framed,
        sym (append-nil (laws.wire s.stream))
            ∙ ap (λ l. laws.wire s.stream ++ concat l) (sym no_current)
            ∙ w.bytes,
      )
