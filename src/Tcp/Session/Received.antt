-- ===== src/Tcp/Session/Received.antt =====
-- Both ends of a connection of src/tcp.rs: a whole session of the sender, and the calls of `read`
-- of the receiver.
use socket_collection.Base.{
  ℕ, ◌<◌, ◌≡◌, sym, ap, ap₂, subst, ◌∙◌, List, [], ◌∷◌, none, true, length, concat, done, arith,
  append-nil, length-map,
}
use socket_collection.Env.{Crates, Codec, Bytes, Keys, RoundTrips, FixedSizes}
use socket_collection.Error.{IoError, is_retry}
use socket_collection.Crypto.{EncryptContext, Matching}
use socket_collection.OutQueue.Order.{Entry}
use socket_collection.OutQueue.Refinement.{IsWellFormed, queued}
use socket_collection.OutQueue.Waiting.{waiting, messages}
use socket_collection.OutQueue.Fates.{Survives}
use socket_collection.Mio.{TcpApi}
use socket_collection.Tcp.Inner.{Inner}
use socket_collection.Tcp.Inner.Pending.{SendLaws}
use socket_collection.Tcp.Inner.Receive.{Receives, failed}
use socket_collection.Tcp.Inner.Reads.{inner_reads, try_reads-inner_reads}
use socket_collection.Tcp.Delivery.{Frames, no_frames, delivered, try_reads-Frames}
use socket_collection.Crypto.Sizes.{dec_encrypted_size_len-pos}
use socket_collection.Tcp.Session.{Session, Session-Written, all_sent}
use socket_collection.Tcp.Session.Calls.{fresh-Written}

module _ {x : Crates} {T : Type 0} (c : Codec x T) (u32 : Codec x ℕ) {api : TcpApi x} where
  -- Frames that the stream of an idle, empty reader gives are what calls of `read` return.
  pub frames_read :
      (k : Keys x)
      → RoundTrips k c
      → RoundTrips k u32
      → FixedSizes u32
      → {n fuel : ℕ} {st' : api.Stream} {e : IoError} {ctx : EncryptContext x} (us : List T)
        (frames : List Bytes) (wire : Bytes) (t : Inner api)
      → Frames c u32 ctx t.msg_reader.max_payload_size us frames
      → wire ≡ concat frames
      → 0 < length wire
      → Matching k ctx t.msg_reader.dec_ctx
      → t.msg_reader.read_len ≡ 0
      → t.msg_reader.read_buffer ≡ []
      → Receives api n t.stream wire (failed e) st'
      → is_retry e.kind ≡ true
      → n < fuel
      → inner_reads c u32 fuel (length us) t ≡ done (delivered c u32 us, record t { stream = st' })
  frames_read k tc tu fixed [] frames wire t no_frames split some_bytes a idle clean d retry
        enough =
      absurd (omega (arith, some_bytes, ap length split))
  frames_read k tc tu fixed (v ∷ us) frames wire t framed split some_bytes a idle clean d retry
        enough =
      try_reads-inner_reads c u32 v us t idle clean
        (dec_encrypted_size_len-pos t.msg_reader.dec_ctx) d enough retry
        (try_reads-Frames k c u32 tc tu fixed (v ∷ us) frames []
            (record t.msg_reader { read_buffer = wire }) a framed idle
            (split ∙ sym (append-nil (concat frames)))
          ∙ ap₂
              (λ l b.
                (delivered c u32 (v ∷ us), record t.msg_reader { read_len = l; read_buffer = b }))
              (sym idle) (sym clean))

module _ {x : Crates} {T : Type 0} (c : Codec x T) (u32 : Codec x ℕ) {api : TcpApi x}
    (limit : ℕ) where
  -- From socket to socket over a whole session, and over codecs with the documented round trips and
  -- sizes: a sender whose stream is new and keeps its contract, with nothing queued or begun, is
  -- called to write messages of all priorities, some of which cannot be serialised and are refused,
  -- and is polled in between, however often the stream blocks and takes only parts, until nothing
  -- waits and something was sent. The other calls return `Ok`, and in between its outgoing side
  -- does not change. Each payload is nonempty, within the receiver's limit, and of a length that
  -- fits a `u32`. If the stream of a receiver with the matching context, between two frames and
  -- with an empty buffer, gives the bytes that were accepted, in any number of pieces, and then
  -- would block, and the fuel exceeds the number of the pieces, then there are messages that as
  -- many calls of `read` return one after the other, leaving the receiver between two frames with
  -- an empty buffer, and these are, of the messages written and not refused, of each priority some,
  -- in the order of the writes and none twice, and of each priority below the drop priority all.
  pub Session-inner_reads :
      (k : Keys x)
      → RoundTrips k c
      → RoundTrips k u32
      → FixedSizes u32
      → (laws : SendLaws api) (vs : List (Entry T)) (s0 s t : Inner api) → laws.wire s0.stream ≡ []
      → s0.current_write ≡ none
      → IsWellFormed s0.out_queue
      → queued s0.out_queue ≡ []
      → Session c u32 limit laws s0 vs s
      → waiting s.current_write s.out_queue ≡ []
      → 0 < length (laws.wire s.stream)
      → t.msg_reader.max_payload_size ≡ limit
      → Matching k s0.enc_ctx t.msg_reader.dec_ctx
      → t.msg_reader.read_len ≡ 0
      → t.msg_reader.read_buffer ≡ []
      → {n : ℕ} {st' : api.Stream} {e : IoError} (fuel : ℕ)
      → Receives api n t.stream (laws.wire s.stream) (failed e) st'
      → is_retry e.kind ≡ true
      → n < fuel
      → (us : List (Entry T)) × Survives s0.out_queue.conf.msg_drop_priority us vs
        × (inner_reads c u32 fuel (length us) t
            ≡ done (delivered c u32 (messages us), record t { stream = st' }))
  Session-inner_reads k tc tu fixed laws vs s0 s t fresh none_begun w empty history sent some_bytes
        size a idle clean {st'} fuel d retry enough =
      let (us, frames, survives, framed, wire) =
        all_sent c u32 limit laws s0 s vs
          (Session-Written c u32 limit laws
            (fresh-Written c u32 limit laws s0 fresh none_begun w empty) history)
          sent in
      (
        us,
        survives,
        ap (λ n. inner_reads c u32 fuel n t) (sym (length-map (λ m. m.msg) us))
            ∙ frames_read c u32 k tc tu fixed (messages us) frames (laws.wire s.stream) t
                (subst (λ l. Frames c u32 s0.enc_ctx l (messages us) frames) (sym size) framed) wire
                some_bytes a idle clean d retry enough,
      )
