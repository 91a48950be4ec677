-- ===== src/Udp/Session.antt =====
-- A whole session of a connected socket of src/udp.rs: messages are written one after the other,
-- whenever the socket is polled it sends what it takes, the network carries the datagrams, and the
-- other end reads them.
pub mod Network
pub mod Received
use socket_collection.Base.{
  done-injective, append-nil, ℕ, ◌<◌, ◌≡◌, refl, sym, ap, subst, ◌∙◌, List, [], ◌∷◌, ◌++◌, Option,
  none, some, ok, err, Bool, length, done,
}
use socket_collection.Base.Loop.{loop}
use socket_collection.Env.{Crates, Codec, Bytes}
use socket_collection.Error.{SocketError}
use socket_collection.Crypto.{EncryptContext, encrypt}
use socket_collection.Config.{Priority}
use socket_collection.OutQueue.{Instant, Clock, push_at, drop_expired}
use socket_collection.OutQueue.Order.{Entry}
use socket_collection.OutQueue.Refinement.{IsWellFormed, queued}
use socket_collection.OutQueue.Waiting.{waiting, messages}
use socket_collection.OutQueue.Fates.{Survives}
use socket_collection.OutQueue.Ledger.{Ledger-nil, Encodes-messages}
use socket_collection.Mio.{UdpApi}
use socket_collection.Udp.Outbox.{Outbox, flush_round}
use socket_collection.Udp.Outbox.Flush.{SendLaws}
use socket_collection.Udp.Outbox.Account.{
  Posted, Posted-new, Posted-drop_expired, Posted-push_at, Posted-loop, Posted-passed,
}
use socket_collection.Udp.Inner.{Inner, outbox, with_outbox, flush_write_until_would_block, write}
use socket_collection.Udp.Inner.Write.{flush-done, write-enqueued, write-none, write-err}
use mathlib.Core.List.{Forall₂, append-eq-nil_iff, map-eq-nil_iff}

module _ {x : Crates} {T : Type 0} (c : Codec x T) where
  -- A datagram that is not empty, of a message.
  pub record IsSealed (e : EncryptContext x) (v : T) (bytes : Bytes) : Type 0 where
    pub nonce : x.Nonce
    pub sealed : encrypt c e nonce v ≡ ok bytes
    pub nonempty : 0 < length bytes

  module _ {api : UdpApi x} (laws : SendLaws api.send length) where
    -- The socket that `s0` has become after `write` was called with these messages, each with its
    -- priority and the instant at which it was queued, with messages that could not be encrypted,
    -- and with none, in this order. Otherwise the calls returned `Ok`, true or false. In between,
    -- the socket may change in other ways, as when it is read or the system makes room, but not
    -- what it has sent or has still to send through `write`.
    pub data Session (s0 : Inner api) : List (Entry T) → Inner api → Type 0 where
      opened : Session s0 [] s0
      wrote :
          {vs : List (Entry T)} {s s' : Inner api} (sent_all : Bool) (fuel : ℕ) (clock : Clock)
          (m : Entry T) (bytes : Bytes) (sealed : IsSealed s.enc_ctx m.msg bytes)
          → Session s0 vs s
          → write c fuel s sealed.nonce clock m.queued_at (some (m.msg, m.priority))
            ≡ done (ok sent_all, s')
          → Session s0 (vs ++ (m ∷ [])) s'
      refused :
          {vs : List (Entry T)} {s s' : Inner api} (fuel : ℕ) (nonce : x.Nonce) (clock : Clock)
          (now : Instant) (v : T) (p : Priority) (e : SocketError x)
          → Session s0 vs s
          → encrypt c s.enc_ctx nonce v ≡ err e
          → write c fuel s nonce clock now (some (v, p)) ≡ done (err e, s')
          → Session s0 vs s'
      polled :
          {vs : List (Entry T)} {s s' : Inner api} (sent_all : Bool) (fuel : ℕ) (nonce : x.Nonce)
          (clock : Clock) (now : Instant)
          → Session s0 vs s
          → write c fuel s nonce clock now none ≡ done (ok sent_all, s')
          → Session s0 vs s'
      passed :
          {vs : List (Entry T)} {s s' : Inner api}
          → Session s0 vs s
          → s'.out_queue ≡ s.out_queue
          → s'.current_write ≡ s.current_write
          → s'.enc_ctx ≡ s.enc_ctx
          → laws.sent s'.sock ≡ laws.sent s.sock
          → Session s0 vs s'

    -- The context has not changed, and the queue and the socket account for all messages.
    pub record Written (s0 : Inner api) (vs : List (Entry T)) (s : Inner api) : Type 0 where
      pub context : s.enc_ctx ≡ s0.enc_ctx
      pub posted : Posted api.send length laws (IsSealed s0.enc_ctx) s0.out_queue.conf vs (outbox s)

    flush-Written :
        (s0 t s : Inner api) (vs : List (Entry T)) (fuel : ℕ) (sent_all : Bool)
        → Written s0 vs t
        → flush_write_until_would_block fuel t ≡ done (ok sent_all, s)
        → Written s0 vs s
    flush-Written s0 t s vs fuel sent_all w h =
        let (r, looped, same) = flush-done fuel t (ok sent_all, s) h in
        let looped' = looped ∙ ap (λ k. done (k, r.1)) (ap (λ k. k.0) same) in
        subst (Written s0 vs) (ap (λ k. k.1) same) (record {
          context = w.context;
          posted =
              Posted-loop api.send length laws (IsSealed s0.enc_ctx) s0.out_queue.conf vs (outbox t)
                r.1 fuel sent_all looped' w.posted;
        })

    drop_expired-Written :
        (s0 s : Inner api) (vs : List (Entry T)) (clock : Clock)
        → Written s0 vs s
        → Written s0 vs (record s { out_queue = (drop_expired clock s.out_queue).1 })
    drop_expired-Written s0 s vs clock w = record {
      context = w.context;
      posted =
          Posted-drop_expired api.send length laws (IsSealed s0.enc_ctx) s0.out_queue.conf vs
            (outbox s) clock w.posted;
    }

    push_at-Written :
        (s0 s : Inner api) (vs : List (Entry T)) (m : Entry T) (bytes : Bytes)
        → IsSealed s.enc_ctx m.msg bytes
        → Written s0 vs s
        → Written s0
            (vs ++ (m ∷ []))
            (record s { out_queue = push_at s.out_queue m.queued_at bytes m.priority })
    push_at-Written s0 s vs m bytes sealed w = record {
      context = w.context;
      posted =
          Posted-push_at api.send length laws (IsSealed s0.enc_ctx) s0.out_queue.conf vs (outbox s)
            m bytes (subst (λ e. IsSealed e m.msg bytes) w.context sealed) w.posted;
    }

    passed-Written :
        (s0 s s' : Inner api) (vs : List (Entry T))
        → s'.out_queue ≡ s.out_queue
        → s'.current_write ≡ s.current_write
        → s'.enc_ctx ≡ s.enc_ctx
        → laws.sent s'.sock ≡ laws.sent s.sock
        → Written s0 vs s
        → Written s0 vs s'
    passed-Written s0 s s' vs queue same ctx sent w = record {
      context = ctx ∙ w.context;
      posted =
          Posted-passed api.send length laws (IsSealed s0.enc_ctx) s0.out_queue.conf vs (outbox s)
            (outbox s') queue same sent w.posted;
    }

    pub Session-Written :
        {s0 : Inner api} {vs : List (Entry T)} {s : Inner api}
        → Written s0 [] s0
        → Session s0 vs s
        → Written s0 vs s
    Session-Written fresh opened = fresh
    Session-Written {s0} fresh (wrote {vs} {s} {s'} sent_all fuel clock m bytes sealed before h) =
        let w = drop_expired-Written s0 s vs clock (Session-Written fresh before) in
        let d : Inner api = record s { out_queue = (drop_expired clock s.out_queue).1 } in
        flush-Written s0 (record d { out_queue = push_at d.out_queue m.queued_at bytes m.priority })
          s' (vs ++ (m ∷ [])) fuel sent_all (push_at-Written s0 d vs m bytes sealed w)
          (sym (
              write-enqueued c fuel s sealed.nonce clock m.queued_at m.msg m.priority bytes
                sealed.sealed)
            ∙ h)
    Session-Written {s0} fresh (refused {vs} {s} {s'} fuel nonce clock now v p e before bad h) =
        subst (Written s0 vs)
          (ap (λ r. r.1) (done-injective (sym (write-err c fuel s nonce clock now v p e bad) ∙ h)))
          (drop_expired-Written s0 s vs clock (Session-Written fresh before))
    Session-Written {s0} fresh (polled {vs} {s} {s'} sent_all fuel nonce clock now before h) =
        flush-Written s0 (record s { out_queue = (drop_expired clock s.out_queue).1 }) s' vs fuel
          sent_all (drop_expired-Written s0 s vs clock (Session-Written fresh before))
          (sym (write-none c fuel s nonce clock now) ∙ h)
    Session-Written {s0} fresh (passed {vs} {s} {s'} before queue same ctx sent) =
        passed-Written s0 s s' vs queue same ctx sent (Session-Written fresh before)

    pub fresh-Written :
        (s0 : Inner api)
        → laws.sent s0.sock ≡ []
        → s0.current_write ≡ none
        → IsWellFormed s0.out_queue
        → queued s0.out_queue ≡ []
        → Written s0 [] s0
    fresh-Written s0 fresh none_begun w empty = record {
      context = refl;
      posted =
          Posted-new api.send length laws (IsSealed s0.enc_ctx) s0.out_queue.conf (outbox s0) fresh
            none_begun w refl empty;
    }

    -- When nothing waits, the socket has taken the datagrams of all messages that survive.
    pub all_sent :
        (s0 s : Inner api) (vs : List (Entry T))
        → Written s0 vs s
        → waiting s.current_write s.out_queue ≡ []
        → (us : List (Entry T)) × Survives s0.out_queue.conf.msg_drop_priority us vs
          × Forall₂ (IsSealed s0.enc_ctx) (messages us) (laws.sent s.sock)
    all_sent s0 s vs w sent =
        let (no_current, no_messages) = append-eq-nil_iff.0 sent in
        let p = w.posted in
        let (us, survives, sealed) =
          Ledger-nil (IsSealed s0.enc_ctx) s0.out_queue.conf.msg_drop_priority vs p.gone
            (queued s.out_queue) p.tracks.ledger ((map-eq-nil_iff (λ f. f.msg)).0 no_messages) in
        let all_gone : messages p.gone ≡ laws.sent s.sock =
          sym p.datagrams
          ∙ ap (◌++◌ (laws.sent s.sock)) no_current
          ∙ append-nil (laws.sent s.sock) in
        (
          us,
          survives,
          subst (Forall₂ (IsSealed s0.enc_ctx) (messages us)) all_gone
              (Encodes-messages (IsSealed s0.enc_ctx) sealed),
        )
