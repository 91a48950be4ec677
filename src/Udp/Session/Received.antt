-- ===== src/Udp/Session/Received.antt =====
-- Both ends of a connection of src/udp.rs: a whole session of the sender, a network that loses,
-- repeats and reorders datagrams, and the calls of `read` of the receiver.
use socket_collection.Base.{
  ℕ, suc, ◌<◌, ◌≡◌, refl, sym, ap, ◌∙◌, List, [], ◌∷◌, map, none, some, ok, true, length,
  length-map, done, arith,
}
use socket_collection.Env.{Crates, Codec, Bytes, Keys, RoundTrips}
use socket_collection.Error.{IoError, is_retry}
use socket_collection.Crypto.{EncryptContext, DecryptContext, Matching, decrypt}
use socket_collection.Crypto.RoundTrip.{decrypt-encrypt}
use socket_collection.OutQueue.Order.{Entry}
use socket_collection.OutQueue.Refinement.{IsWellFormed, queued}
use socket_collection.OutQueue.Waiting.{waiting, messages}
use socket_collection.OutQueue.Fates.{Survives}
use socket_collection.Mio.{UdpApi}
use socket_collection.Udp.Handlers.{bytes_is_empty}
use socket_collection.Udp.Inbox.{deliver}
use socket_collection.Udp.Inbox.Receive.{Arrives, kept}
use socket_collection.Udp.Outbox.Flush.{SendLaws}
use socket_collection.Udp.Inner.{Inner, recv_bytes}
use socket_collection.Udp.Inner.Read.{read_times, read_times-Arrives}
use socket_collection.Udp.Session.{IsSealed, Session, fresh-Written, Session-Written, all_sent}
use socket_collection.Udp.Session.Network.{carried, map-carried, Forall₂-carried}
use mathlib.Core.List.{Forall₂}

module _ {x : Crates} {T : Type 0} (k : Keys x) (c : Codec x T) (trips : RoundTrips k c)
    {e : EncryptContext x} {d : DecryptContext x} (agree : Matching k e d) where
  -- Datagrams that are not empty are all kept.
  kept-IsSealed :
      {vs : List T} {ms : List Bytes} → Forall₂ (IsSealed c e) vs ms → kept bytes_is_empty ms ≡ ms
  kept-IsSealed Forall₂.nil = refl
  kept-IsSealed (Forall₂.cons {b = []} r h) = absurd (omega (arith, r.nonempty))
  kept-IsSealed (Forall₂.cons {b = b ∷ bs} r h) = ap (◌∷◌ (b ∷ bs)) (kept-IsSealed h)

  -- Each datagram is read as the message that was sealed in it.
  deliver-IsSealed :
      {vs : List T} {ms : List Bytes}
      → Forall₂ (IsSealed c e) vs ms
      → map (λ b. deliver (decrypt c d) (some b)) ms ≡ map (λ v. ok (some v)) vs
  unfolding deliver
  deliver-IsSealed Forall₂.nil = refl
  deliver-IsSealed (Forall₂.cons {a = v} {b = b} r h) =
      rw (decrypt-encrypt k c trips r.nonce v b agree r.sealed, deliver-IsSealed h)

  length-IsSealed :
      {vs : List T} {ms : List Bytes} → Forall₂ (IsSealed c e) vs ms → length vs ≡ length ms
  length-IsSealed Forall₂.nil = refl
  length-IsSealed (Forall₂.cons r h) = ap suc (length-IsSealed h)

module _ {x : Crates} {T : Type 0} (k : Keys x) (c : Codec x T) (trips : RoundTrips k c)
    {api : UdpApi x} where
  -- Datagrams that arrive, sealed by the other end, are what calls of `read` return.
  read_times-IsSealed :
      (fuel : ℕ) (t : Inner api) {n : ℕ} {sock : api.Sock} {error : IoError}
      → {e : EncryptContext x} (vs : List T) (ms : List Bytes) → Matching k e t.dec_ctx
      → t.read_buffer ≡ []
      → Forall₂ (IsSealed c e) vs ms
      → 0 < length ms
      → Arrives (recv_bytes api) n t.sock ms error sock
      → is_retry error.kind ≡ true
      → n < fuel
      → read_times c (length vs) fuel t
        ≡ done (map (λ v. ok (some v)) vs, record t { sock = sock; read_buffer = [] })
  read_times-IsSealed fuel t vs [] agree clean h some_come a retry enough =
      absurd (omega (arith, some_come))
  read_times-IsSealed fuel t {sock = sock} vs (m ∷ ms) agree clean h some_come a retry enough =
      ap (λ i. read_times c i fuel t) (length-IsSealed k c trips agree h)
      ∙ read_times-Arrives c fuel t m ms clean a retry (kept-IsSealed k c trips agree h) enough
      ∙ ap (λ l. done (l, record t { sock = sock; read_buffer = [] }))
          (deliver-IsSealed k c trips agree h)

  -- From socket to socket over a whole session and a network that is not reliable, and over a codec
  -- with the documented round trips: a connected sender whose socket has sent nothing and keeps its
  -- contract, with nothing queued, is called to write messages of all priorities, some of which
  -- cannot be encrypted and are refused, and is polled in between, however often the socket blocks,
  -- until nothing waits. The other calls return `Ok`, in between its outgoing side does not change,
  -- and no datagram is empty. The network carries the datagrams to a receiver with the matching
  -- context and an empty buffer: it may lose, repeat and reorder them, but not change them, and it
  -- brings one at least before the receiver's socket would block. With more fuel than there are
  -- arrivals there are messages, of each priority some of those written and not refused, in the
  -- order of the writes and none twice, and of each priority below the drop priority all, so that
  -- as many calls of `read` as there are arrivals return exactly the messages with the numbers that
  -- the network has carried, in the order of their arrival.
  pub Session-read_times :
      (laws : SendLaws api.send length) (vs : List (Entry T)) (s0 s t : Inner api)
      → laws.sent s0.sock ≡ []
      → s0.current_write ≡ none
      → IsWellFormed s0.out_queue
      → queued s0.out_queue ≡ []
      → Session c laws s0 vs s
      → waiting s.current_write s.out_queue ≡ []
      → Matching k s0.enc_ctx t.dec_ctx
      → t.read_buffer ≡ []
      → (numbers : List ℕ) (fuel : ℕ) {n : ℕ} {sock : api.Sock} {error : IoError}
      → 0 < length (carried numbers (laws.sent s.sock))
      → Arrives (recv_bytes api) n t.sock (carried numbers (laws.sent s.sock)) error sock
      → is_retry error.kind ≡ true
      → n < fuel
      → (us : List (Entry T)) × Survives s0.out_queue.conf.msg_drop_priority us vs
        × (read_times c (length (carried numbers us)) fuel t
            ≡ done (
              map (λ v. ok (some v)) (messages (carried numbers us)),
              record t { sock = sock; read_buffer = [] },
            ))
  Session-read_times laws vs s0 s t fresh none_begun w empty session sent agree clean numbers fuel
        {sock = sock} some_come a retry enough =
      let (us, survives, sealed) =
        all_sent c laws s0 s vs
          (Session-Written c laws (fresh-Written c laws s0 fresh none_begun w empty) session)
          sent in
      let reads =
        read_times-IsSealed fuel t (carried numbers (messages us))
          (carried numbers (laws.sent s.sock)) agree clean
          (Forall₂-carried (IsSealed c s0.enc_ctx) numbers sealed) some_come a retry enough in
      let same = map-carried (λ m. m.msg) numbers us in
      (
        us,
        survives,
        ap (λ i. read_times c i fuel t)
              (sym (length-map (λ m. m.msg) (carried numbers us)) ∙ ap length (sym same))
            ∙ reads
            ∙ ap (λ l. done (map (λ v. ok (some v)) l, record t { sock = sock; read_buffer = [] }))
                same,
      )
