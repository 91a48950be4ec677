-- ===== src/Tcp/Delivery.antt =====
-- Both ends of a connection of src/tcp.rs: what one side flushes, the other side reads.
use socket_collection.Base.{
  done-injective, ℕ, zero, suc, ◌+◌, ◌≤◌, ◌<◌, ◌≡◌, refl, sym, ap, ap₂, subst, ◌∙◌, List, [], ◌∷◌,
  ◌++◌, map, Option, none, some, ok, true, length, concat, done, append_assoc, append-nil,
}
use socket_collection.Env.{Crates, Codec, Bytes, Keys, RoundTrips, FixedSizes}
use socket_collection.Error.{Res}
use socket_collection.Crypto.{EncryptContext, enc_encrypted_size_len, Matching}
use socket_collection.OutQueue.Refinement.{IsWellFormed, queued}
use socket_collection.OutQueue.Waiting.{waiting, messages}
use socket_collection.Mio.{TcpApi}
use socket_collection.Tcp.Frame.{serialize_with_len, u32_mod}
use socket_collection.Tcp.Reader.{LenDelimitedReader, try_read}
use socket_collection.Tcp.Reader.Framed.{
  IsFrame, try_read-header, read_payload-done, serialize_with_len-IsFrame,
}
use socket_collection.Tcp.Inner.{Inner, flush_write_until_would_block}
use socket_collection.Tcp.Inner.Pending.{SendLaws, pending, work}
use socket_collection.Tcp.Inner.Flush.{Flushed, flush-Flushed}

module _ {x : Crates} {T : Type 0} (c : Codec x T) (u32 : Codec x ℕ) where
  -- `try_read` called so many times.
  abbrev pub try_reads : ℕ → LenDelimitedReader x → List (Res x (Option T)) × LenDelimitedReader x
  try_reads zero r = ([], r)
  try_reads (suc n) r =
      let (result, r') = try_read c u32 r in
      let (results, last) = try_reads n r' in (result ∷ results, last)

  abbrev pub delivered : List T → List (Res x (Option T))
  delivered = map (λ v. ok (some v))

  -- Frames that a sender with this context writes for these messages, within a limit.
  pub data Frames (e : EncryptContext x) (limit : ℕ) : List T → List Bytes → Type 0 where
    no_frames : Frames e limit [] []
    frame :
        {vs : List T} {rest : List Bytes} (nonces : x.Nonce × x.Nonce) (v : T) (bytes : Bytes)
        → serialize_with_len c u32 e nonces v ≡ ok bytes
        → enc_encrypted_size_len e < length bytes
        → length bytes ≤ enc_encrypted_size_len e + limit
        → length bytes < enc_encrypted_size_len e + u32_mod
        → Frames e limit vs rest
        → Frames e limit (v ∷ vs) (bytes ∷ rest)

  try_read-IsFrame :
      {v : T} {header payload : Bytes} (rest : Bytes) (r : LenDelimitedReader x)
      → IsFrame c u32 r.dec_ctx r.max_payload_size v header payload
      → r.read_len ≡ 0
      → r.read_buffer ≡ (header ++ payload) ++ rest
      → try_read c u32 r ≡ (ok (some v), record r { read_len = 0; read_buffer = rest })
  try_read-IsFrame {v} {header} {payload} rest r f idle b =
      try_read-header c u32 (payload ++ rest) r f idle (b ∙ append_assoc header payload rest)
      ∙ read_payload-done c u32 v payload rest _ f.payload_value refl refl

module _ {x : Crates} {T : Type 0} (k : Keys x) (c : Codec x T) (u32 : Codec x ℕ)
    (tc : RoundTrips k c) (tu : RoundTrips k u32) (fixed : FixedSizes u32) where
  -- A reader with this buffer, between two frames.
  abbrev at_frame : LenDelimitedReader x → Bytes → LenDelimitedReader x
  at_frame r bytes = record r { read_len = 0; read_buffer = bytes }

  try_reads-at_frame :
      {e : EncryptContext x} (r : LenDelimitedReader x) (rest : Bytes)
      → Matching k e r.dec_ctx
      → {vs : List T} {frames : List Bytes} → Frames c u32 e r.max_payload_size vs frames
      → try_reads c u32 (length vs) (at_frame r (concat frames ++ rest))
        ≡ (delivered c u32 vs, at_frame r rest)
  try_reads-at_frame r rest a no_frames = refl
  try_reads-at_frame r rest a (frame {rest = bs} nonces v bytes h lo hi small more) =
      let (header, payload, split, f) =
        serialize_with_len-IsFrame k c u32 tc tu fixed nonces v r.max_payload_size bytes a h lo hi
          small in
      let first =
        try_read-IsFrame c u32 (concat bs ++ rest) (at_frame r ((bytes ++ concat bs) ++ rest)) f
          refl (append_assoc bytes (concat bs) rest ∙ ap (λ t. t ++ (concat bs ++ rest)) split) in
      rw (first, try_reads-at_frame r rest a more)

  -- Frames that stand one behind the other in the buffer of a reader between two frames, with the
  -- matching context, are read one at a time, in order, and leave the bytes behind them in the
  -- buffer.
  pub try_reads-Frames :
      {e : EncryptContext x} (vs : List T) (frames : List Bytes) (rest : Bytes)
      → (r : LenDelimitedReader x) → Matching k e r.dec_ctx
      → Frames c u32 e r.max_payload_size vs frames
      → r.read_len ≡ 0
      → r.read_buffer ≡ concat frames ++ rest
      → try_reads c u32 (length vs) r
        ≡ (delivered c u32 vs, record r { read_len = 0; read_buffer = rest })
  try_reads-Frames vs frames rest r a sent idle b =
      ap₂ (λ l t. try_reads c u32 (length vs) (record r { read_len = l; read_buffer = t })) idle b
      ∙ try_reads-at_frame r rest a sent

  -- From end to end, over codecs with the documented round trips and sizes: a sender whose stream
  -- is new and keeps its contract, and whose well-formed queue holds frames of messages, none of
  -- them begun, flushes with enough fuel. Each payload is nonempty, within the reader's limit, and
  -- of a length that fits a `u32`. If the flush returns `Ok(true)`, the bytes that the stream has
  -- accepted, put into an idle, empty reader with the matching context, are read as exactly these
  -- messages: in the order of the queue, each once, and nothing is left over.
  pub flush-try_reads :
      {api : TcpApi x} (laws : SendLaws api) (fuel : ℕ) (s s' : Inner api)
      → (vs : List T) (r : LenDelimitedReader x) → IsWellFormed s.out_queue
      → work s < fuel
      → laws.wire s.stream ≡ []
      → s.current_write ≡ none
      → Matching k s.enc_ctx r.dec_ctx
      → Frames c u32 s.enc_ctx r.max_payload_size vs (messages (queued s.out_queue))
      → r.read_len ≡ 0
      → r.read_buffer ≡ []
      → flush_write_until_would_block fuel s ≡ done (ok true, s')
      → try_reads c u32 (length vs) (record r { read_buffer = laws.wire s'.stream })
        ≡ (delivered c u32 vs, r)
  flush-try_reads laws fuel s s' vs r w enough fresh none_begun a sent idle clean flushed =
      let (r0, e0, ends) = flush-Flushed laws fuel s w enough in
      let (kept, nothing) = subst (Flushed laws s) (done-injective (sym e0 ∙ flushed)) ends in
      let to_send : pending s ≡ concat (messages (queued s.out_queue)) =
        ap (λ o. concat (waiting o s.out_queue)) none_begun in
      let wire : laws.wire s'.stream ≡ concat (messages (queued s.out_queue)) ++ [] =
        sym (append-nil (laws.wire s'.stream))
        ∙ ap (λ l. laws.wire s'.stream ++ concat l) (sym nothing)
        ∙ kept.bytes
        ∙ ap (λ t. t ++ pending s) fresh
        ∙ to_send
        ∙ sym (append-nil (concat (messages (queued s.out_queue)))) in
      try_reads-Frames vs (messages (queued s.out_queue)) []
        (record r { read_buffer = laws.wire s'.stream }) a sent idle wire
      ∙ ap₂ (λ l t. (delivered c u32 vs, record r { read_len = l; read_buffer = t })) (sym idle)
          (sym clean)
