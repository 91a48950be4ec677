-- ===== src/Tcp/Session/Calls.antt =====
-- What a socket of src/tcp.rs has done with the messages written to it so far, and how each part of
-- `write` keeps this.
use socket_collection.Base.{
  ℕ, ◌+◌, ◌≤◌, ◌<◌, ◌≡◌, refl, sym, ap, ap₂, subst, ◌∙◌, List, [], ◌∷◌, ◌++◌, none, ok, Bool,
  length, concat, done, map-append, concat-append,
}
use socket_collection.Env.{Crates, Codec, Bytes}
use socket_collection.Crypto.{EncryptContext, enc_encrypted_size_len}
use socket_collection.OutQueue.{Clock, push_at, drop_expired}
use socket_collection.OutQueue.Order.{Entry}
use socket_collection.OutQueue.Refinement.{IsWellFormed, queued}
use socket_collection.OutQueue.Waiting.{current, messages}
use socket_collection.OutQueue.Ledger.{
  Encodes, Tracks, Tracks-new, Tracks-drop_expired, Tracks-push_at, Tracks-take,
}
use socket_collection.Mio.{TcpApi}
use socket_collection.Tcp.Frame.{serialize_with_len, u32_mod}
use socket_collection.Tcp.Inner.{Inner, flush_write_until_would_block}
use socket_collection.Tcp.Inner.Pending.{SendLaws}
use socket_collection.Tcp.Session.Flushed.{begun, flush-Moves}
use socket_collection.Tcp.Delivery.{Frames, frame, no_frames}
use mathlib.Core.List.{Forall₂}

module _ {x : Crates} {T : Type 0} (c : Codec x T) (u32 : Codec x ℕ) (limit : ℕ) where
  -- A frame of a message; its payload is nonempty, within the limit and of a length that fits a
  -- `u32`.
  pub record IsFramed (e : EncryptContext x) (v : T) (bytes : Bytes) : Type 0 where
    pub nonces : x.Nonce × x.Nonce
    pub framed : serialize_with_len c u32 e nonces v ≡ ok bytes
    pub nonempty : enc_encrypted_size_len e < length bytes
    pub limited : length bytes ≤ enc_encrypted_size_len e + limit
    pub fits : length bytes < enc_encrypted_size_len e + u32_mod

  pub Forall₂-Frames :
      (e : EncryptContext x) {ms : List (Entry T)} {fs : List (Entry Bytes)}
      → Forall₂ (Encodes (IsFramed e)) ms fs
      → Frames c u32 e limit (messages ms) (messages fs)
  Forall₂-Frames e Forall₂.nil = no_frames
  Forall₂-Frames e (Forall₂.cons {a = m} {b = f} r h) =
      let i = r.encoded in
      frame i.nonces m.msg f.msg i.framed i.nonempty i.limited i.fits (Forall₂-Frames e h)

  module _ {api : TcpApi x} (laws : SendLaws api) where
    -- Of the messages `vs`, some have been handed to the stream, frame after frame, and some wait.
    pub record Written (s0 : Inner api) (vs : List (Entry T)) (s : Inner api) : Type 0 where
      pub context : s.enc_ctx ≡ s0.enc_ctx
      pub gone : List (Entry Bytes)
      pub bytes : begun laws s ≡ concat (messages gone)
      pub tracks : Tracks (IsFramed s0.enc_ctx) s0.out_queue.conf vs gone s.out_queue

    pub fresh-Written :
        (s0 : Inner api)
        → laws.wire s0.stream ≡ []
        → s0.current_write ≡ none
        → IsWellFormed s0.out_queue
        → queued s0.out_queue ≡ []
        → Written s0 [] s0
    fresh-Written s0 fresh none_begun w empty = record {
      context = refl;
      gone = [];
      bytes = ap₂ (λ l o. l ++ concat (current o)) fresh none_begun;
      tracks = Tracks-new (IsFramed s0.enc_ctx) s0.out_queue.conf s0.out_queue w refl empty;
    }

    pub drop_expired-Written :
        (s0 s : Inner api) (vs : List (Entry T)) (clock : Clock)
        → Written s0 vs s
        → Written s0 vs (record s { out_queue = (drop_expired clock s.out_queue).1 })
    drop_expired-Written s0 s vs clock w = record {
      context = w.context;
      gone = w.gone;
      bytes = w.bytes;
      tracks =
          Tracks-drop_expired (IsFramed s0.enc_ctx) s0.out_queue.conf vs w.gone s.out_queue clock
            w.tracks;
    }

    pub push_at-Written :
        (s0 t : Inner api) (vs : List (Entry T)) (m : Entry T) (bytes : Bytes)
        → Written s0 vs t
        → IsFramed t.enc_ctx m.msg bytes
        → Written s0
            (vs ++ (m ∷ []))
            (record t { out_queue = push_at t.out_queue m.queued_at bytes m.priority })
    push_at-Written s0 t vs m bytes w r = record {
      context = w.context;
      gone = w.gone;
      bytes = w.bytes;
      tracks =
          Tracks-push_at (IsFramed s0.enc_ctx) s0.out_queue.conf vs w.gone t.out_queue m bytes
            (subst (λ e. IsFramed e m.msg bytes) w.context r) w.tracks;
    }

    pub flush-Written :
        (s0 t s : Inner api) (vs : List (Entry T)) (fuel : ℕ) (sent_all : Bool)
        → Written s0 vs t
        → flush_write_until_would_block fuel t ≡ done (ok sent_all, s)
        → Written s0 vs s
    flush-Written s0 t s vs fuel sent_all w h =
        let v = flush-Moves laws fuel t s sent_all w.tracks.ordered h in
        record {
          context = v.context ∙ w.context;
          gone = w.gone ++ v.gone;
          bytes =
              v.bytes
              ∙ ap (λ l. l ++ concat (messages v.gone)) w.bytes
              ∙ sym (concat-append (messages w.gone) (messages v.gone))
              ∙ ap concat (sym (map-append (λ f. f.msg) w.gone v.gone));
          tracks =
              Tracks-take (IsFramed s0.enc_ctx) s0.out_queue.conf vs w.gone v.gone t.out_queue
                s.out_queue v.ordered v.conf v.split w.tracks;
        }

    pub passed-Written :
        (s0 s s' : Inner api) (vs : List (Entry T))
        → s'.out_queue ≡ s.out_queue
        → s'.current_write ≡ s.current_write
        → s'.enc_ctx ≡ s.enc_ctx
        → laws.wire s'.stream ≡ laws.wire s.stream
        → Written s0 vs s
        → Written s0 vs s'
    passed-Written s0 s s' vs queue begun_same ctx wire w = record {
      context = ctx ∙ w.context;
      gone = w.gone;
      bytes = ap₂ (λ l o. l ++ concat (current o)) wire begun_same ∙ w.bytes;
      tracks =
          subst (Tracks (IsFramed s0.enc_ctx) s0.out_queue.conf vs w.gone) (sym queue) w.tracks;
    }
