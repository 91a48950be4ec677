-- ===== src/Udt/Session.antt =====
-- A whole session of src/udt/udt_sock.rs: messages of all priorities are written one after the
-- other, some are dropped in the queue, whenever the socket is polled it sends what the library
-- takes, and the other end reads what has come.
pub mod Flushed
pub mod Received
use socket_collection.Base.{
  done-injective, ℕ, ◌+◌, ◌≤◌, ◌<◌, ◌≡◌, refl, sym, ap, ap₂, subst, ◌∙◌, List, [], ◌∷◌, ◌++◌,
  Option, none, some, ok, err, Bool, length, concat, done, append-nil, concat-append, map-append,
}
use socket_collection.Env.{Crates, Bytes}
use socket_collection.Error.{SocketError}
use socket_collection.Config.{Priority}
use socket_collection.OutQueue.{OutQueue, Instant, Clock, push_at, expired_queues, push_entry}
use socket_collection.OutQueue
use socket_collection.OutQueue.Order.{Entry, IsOrdered, entries}
use socket_collection.OutQueue.Waiting.{current, messages}
use socket_collection.OutQueue.Fates.{Survives}
use socket_collection.OutQueue.Ledger.{
  Encodes, Ledger-nil, Tracks, Tracks-new, Tracks-drop_expired, Tracks-push_at, Tracks-take,
}
use socket_collection.Tcp.Frame.{u32_mod}
use socket_collection.Udt.Api.{UdtApi, Limits, ByteOrder, StreamCodec}
use socket_collection.Udt.Frame.{u32_size, frame}
use socket_collection.Udt.Inner.{Inner, limits_conf, drop_expired, flush, write}
use socket_collection.Udt.Inner.Queue.{waiting, as_queue, drop_expired-as_queue}
use socket_collection.Udt.Inner.Buffer.{UdtFrames, no_frames, one_frame}
use socket_collection.Udt.Inner.Flush.{SendLaws}
use socket_collection.Udt.Inner.Write.{write-enqueued, write-nothing, udt_write-err}
use socket_collection.Udt.Session.Flushed.{begun, flush-Moves}
use mathlib.Core.List.{Forall₂, append-eq-nil_iff, map-eq-nil_iff}
use mathlib.Core.List.Forall₂

module _ {x : Crates} {T : Type 0} (limits : Limits) (order : ByteOrder) (c : StreamCodec x T) where
  -- A frame of a message that is within the limit and of a length that fits a `u32`.
  pub record IsFramed (v : T) (bytes : Bytes) : Type 0 where
    pub framed : frame order c v ≡ ok bytes
    pub limited : length bytes ≤ u32_size + limits.max_payload_size
    pub fits : length bytes < u32_size + u32_mod

  Forall₂-UdtFrames :
      {ms : List (Entry T)} {fs : List (Entry Bytes)}
      → Forall₂ (Encodes IsFramed) ms fs
      → UdtFrames limits order c (messages ms) (messages fs)
  Forall₂-UdtFrames Forall₂.nil = no_frames
  Forall₂-UdtFrames (Forall₂.cons {a = m} {b = f} r h) =
      let i = r.encoded in one_frame m.msg f.msg i.framed i.limited i.fits (Forall₂-UdtFrames h)

  module _ {api : UdtApi x} (laws : SendLaws api) where
    -- The socket and the library that `s0` and `net0` have become after `write` was called with
    -- these messages, each with its priority and the instant at which it was queued, with messages
    -- that could not be serialised, and with none, in this order. Otherwise the calls returned
    -- `Ok`, true or false. In between, the socket and the library may change in other ways, as
    -- when something is read or room is made, but not what the socket has sent or has still to
    -- send.
    pub data Session (s0 : Inner api) (net0 : api.Net)
        : List (Entry T) → Inner api → api.Net → Type 0 where
      opened : Session s0 net0 [] s0 net0
      wrote :
          {vs : List (Entry T)} {s s' : Inner api} {net net' : api.Net} (sent_all : Bool) (fuel : ℕ)
          (clock : Clock) (m : Entry T) (bytes : Bytes) (framed : IsFramed m.msg bytes)
          → Session s0 net0 vs s net
          → write limits order c fuel s net clock m.queued_at (some (m.msg, m.priority))
            ≡ done ((ok sent_all, s'), net')
          → Session s0 net0 (vs ++ (m ∷ [])) s' net'
      refused :
          {vs : List (Entry T)} {s s' : Inner api} {net net' : api.Net} (fuel : ℕ) (clock : Clock)
          (now : Instant) (v : T) (p : Priority) (e : SocketError x)
          → Session s0 net0 vs s net
          → frame order c v ≡ err e
          → write limits order c fuel s net clock now (some (v, p)) ≡ done ((err e, s'), net')
          → Session s0 net0 vs s' net'
      polled :
          {vs : List (Entry T)} {s s' : Inner api} {net net' : api.Net} (sent_all : Bool) (fuel : ℕ)
          (clock : Clock) (now : Instant)
          → Session s0 net0 vs s net
          → write limits order c fuel s net clock now none ≡ done ((ok sent_all, s'), net')
          → Session s0 net0 vs s' net'
      passed :
          {vs : List (Entry T)} {s s' : Inner api} {net net' : api.Net}
          → Session s0 net0 vs s net
          → s'.write_queue ≡ s.write_queue
          → s'.current_write ≡ s.current_write
          → laws.wire s'.stream net' ≡ laws.wire s.stream net
          → Session s0 net0 vs s' net'

    -- Of the messages `vs`, some have been handed to the library, frame after frame, and some
    -- wait.
    pub record Written (vs : List (Entry T)) (s : Inner api) (net : api.Net) : Type 0 where
      pub gone : List (Entry Bytes)
      pub bytes : begun laws s net ≡ concat (messages gone)
      pub tracks : Tracks IsFramed (limits_conf x limits) vs gone (as_queue limits s)

    drop_expired-Written :
        (s : Inner api) (net : api.Net) (vs : List (Entry T)) (clock : Clock)
        → Written vs s net
        → Written vs (drop_expired limits clock s).1 net
    unfolding OutQueue.drop_expired
    drop_expired-Written s net vs clock w =
        subst (λ t. Written vs t net) (sym (drop_expired-as_queue limits s clock))
          (record {
            gone = w.gone;
            bytes = w.bytes;
            tracks =
                Tracks-drop_expired IsFramed (limits_conf x limits) vs w.gone (as_queue limits s)
                  clock w.tracks;
          })

    push_entry-Written :
        (s : Inner api) (net : api.Net) (vs : List (Entry T)) (m : Entry T) (bytes : Bytes)
        → IsFramed m.msg bytes
        → Written vs s net
        → Written
            (vs ++ (m ∷ []))
            (record s { write_queue = push_entry m.priority m.queued_at bytes s.write_queue })
            net
    unfolding push_at
    push_entry-Written s net vs m bytes r w = record {
      gone = w.gone;
      bytes = w.bytes;
      tracks =
          Tracks-push_at IsFramed (limits_conf x limits) vs w.gone (as_queue limits s) m bytes r
            w.tracks;
    }

    flush-Written :
        (t s : Inner api) (net net' : api.Net) (vs : List (Entry T)) (fuel : ℕ) (sent_all : Bool)
        → Written vs t net
        → flush fuel t net ≡ done ((ok sent_all, s), net')
        → Written vs s net'
    flush-Written t s net net' vs fuel sent_all w h =
        let v = flush-Moves laws fuel t s net net' sent_all w.tracks.ordered h in
        record {
          gone = w.gone ++ v.gone;
          bytes =
              v.bytes
              ∙ ap (λ l. l ++ concat (messages v.gone)) w.bytes
              ∙ sym (concat-append (messages w.gone) (messages v.gone))
              ∙ ap concat (sym (map-append (λ f. f.msg) w.gone v.gone));
          tracks =
              Tracks-take IsFramed (limits_conf x limits) vs w.gone v.gone (as_queue limits t)
                (as_queue limits s) v.ordered refl v.split w.tracks;
        }

    passed-Written :
        (s s' : Inner api) (net net' : api.Net) (vs : List (Entry T))
        → s'.write_queue ≡ s.write_queue
        → s'.current_write ≡ s.current_write
        → laws.wire s'.stream net' ≡ laws.wire s.stream net
        → Written vs s net
        → Written vs s' net'
    passed-Written s s' net net' vs queue same wire w = record {
      gone = w.gone;
      bytes = ap₂ (λ l o. l ++ concat (current o)) wire same ∙ w.bytes;
      tracks =
          subst
            (λ q.
              Tracks IsFramed (limits_conf x limits) vs w.gone
                (record { inner = q; conf = limits_conf x limits }))
            (sym queue) w.tracks;
    }

    pub Session-Written :
        {s0 : Inner api} {net0 : api.Net} {vs : List (Entry T)} {s : Inner api} {net : api.Net}
        → Written [] s0 net0
        → Session s0 net0 vs s net
        → Written vs s net
    Session-Written fresh opened = fresh
    Session-Written fresh
          (wrote {vs} {s} {s'} {net} {net'} sent_all fuel clock m bytes framed before h) =
        let w = drop_expired-Written s net vs clock (Session-Written fresh before) in
        let d = (drop_expired limits clock s).1 in
        flush-Written
          (record d { write_queue = push_entry m.priority m.queued_at bytes d.write_queue }) s' net
          net' (vs ++ (m ∷ [])) fuel sent_all (push_entry-Written d net vs m bytes framed w)
          (sym (
              write-enqueued limits order c fuel s net clock m.queued_at m.msg m.priority bytes
                framed.framed)
            ∙ h)
    Session-Written fresh (refused {vs} {s} {s'} {net} {net'} fuel clock now v p e before bad h) =
        let same =
          done-injective (sym (udt_write-err limits order c fuel s net clock now v p e bad) ∙ h) in
        subst (λ r. Written vs r.0.1 r.1) same
          (drop_expired-Written s net vs clock (Session-Written fresh before))
    Session-Written fresh (polled {vs} {s} {s'} {net} {net'} sent_all fuel clock now before h) =
        flush-Written (drop_expired limits clock s).1 s' net net' vs fuel sent_all
          (drop_expired-Written s net vs clock (Session-Written fresh before))
          (sym (write-nothing limits order c fuel s net clock now) ∙ h)
    Session-Written fresh (passed {vs} {s} {s'} {net} {net'} before queue same wire) =
        passed-Written s s' net net' vs queue same wire (Session-Written fresh before)

    pub fresh-Written :
        (s0 : Inner api) (net0 : api.Net)
        → laws.wire s0.stream net0 ≡ []
        → s0.current_write ≡ none
        → IsOrdered 0 s0.write_queue
        → entries s0.write_queue ≡ []
        → Written [] s0 net0
    fresh-Written s0 net0 fresh none_begun w empty = record {
      gone = [];
      bytes = ap₂ (λ l o. l ++ concat (current o)) fresh none_begun;
      tracks = Tracks-new IsFramed (limits_conf x limits) (as_queue limits s0) w refl empty;
    }

    -- When nothing waits, the wire holds the frames of all messages that survive.
    pub all_sent :
        (s : Inner api) (net : api.Net) (vs : List (Entry T))
        → Written vs s net
        → waiting s.current_write s.write_queue ≡ []
        → (us : List (Entry T)) × (frames : List Bytes) × Survives limits.msg_drop_priority us vs
          × UdtFrames limits order c (messages us) frames
          × (laws.wire s.stream net ≡ concat frames)
    all_sent s net vs w sent =
        let (no_current, no_messages) = append-eq-nil_iff.0 sent in
        let (us, survives, framed) =
          Ledger-nil IsFramed limits.msg_drop_priority vs w.gone (entries s.write_queue)
            w.tracks.ledger ((map-eq-nil_iff (λ f. f.msg)).0 no_messages) in
        (
          us,
          messages w.gone,
          survives,
          Forall₂-UdtFrames framed,
          sym (append-nil (laws.wire s.stream net))
              ∙ ap (λ l. laws.wire s.stream net ++ concat l) (sym no_current)
              ∙ w.bytes,
        )
