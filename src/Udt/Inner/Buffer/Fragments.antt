-- ===== src/Udt/Inner/Buffer/Fragments.antt =====
-- A frame that arrives in pieces at `read_from_buffer` of src/udt/udt_sock.rs.
use socket_collection.Base.{
  ◌+◌, ◌≤◌, ◌<◌, ◌≡◌, refl, sym, ap, ◌∙◌, List, [], ◌∷◌, ◌++◌, Option, none, some, ok, length, All,
  concat, ltb, append-eq-append, append-cancel, ltb→lt, ltb→le, length-append, append_assoc,
  append-nil, arith, ◌⊎◌, inl, inr, Bool-cases,
}
use socket_collection.Env.{Crates, Bytes}
use socket_collection.Error.{Res}
use socket_collection.Tcp.Frame.{u32_mod}
use socket_collection.Udt.Api.{UdtApi, Limits, ByteOrder, ByteOrderLaws, StreamCodec, Streams}
use socket_collection.Udt.Frame.{u32_size, frame}
use socket_collection.Udt.Inner.{Inner, read_from_buffer}
use socket_collection.Udt.Inner.Buffer.{
  IsFrame, frame-IsFrame, read_from_buffer-header, read_from_buffer-short, read_from_buffer-started,
  read_message-waits, read_message-done,
}

module _ {x : Crates} {api : UdtApi x} where
  -- `self.read_buffer.extend_from_slice(..)`.
  abbrev pub extend : Inner api → Bytes → Inner api
  extend s bytes = record s { read_buffer = s.read_buffer ++ bytes }

  -- The reader has received `acc` of a frame, and may have taken off its length.
  abbrev Awaiting : Bytes → Bytes → Bytes → Inner api → Type 0
  Awaiting header payload acc s =
      ((s.read_len ≡ 0) × (s.read_buffer ≡ acc))
      ⊎ ((0 < s.read_len) × (s.read_len ≡ length payload) × (header ++ s.read_buffer ≡ acc))

  extend-Awaiting :
      (header payload acc b : Bytes) (s : Inner api)
      → Awaiting header payload acc s
      → Awaiting header payload (acc ++ b) (extend s b)
  extend-Awaiting header payload acc b s (inl (e, h)) = inl (e, ap (λ t. t ++ b) h)
  extend-Awaiting header payload acc b s (inr (started, e, h)) =
      inr (started, e, sym (append_assoc header s.read_buffer b) ∙ ap (λ t. t ++ b) h)

abbrev pub IsNothing : {x : Crates} {T : Type 0} → Res x (Option T) → Type 0
IsNothing result = result ≡ ok none

-- What reading leaves alone.
abbrev Untouched : {x : Crates} {api : UdtApi x} → Inner api → Inner api → Type 0
Untouched s s' =
    (s'.stream ≡ s.stream) × (s'.write_queue ≡ s.write_queue) × (s'.current_write ≡ s.current_write)

module _ {x : Crates} {api : UdtApi x} {T : Type 0} (limits : Limits) (order : ByteOrder)
    (c : StreamCodec x T) where
  read_message-Awaiting :
      (header payload acc missing : Bytes) (s : Inner api)
      → acc ++ missing ≡ header ++ payload
      → 0 < length missing
      → s.read_len ≡ length payload
      → header ++ s.read_buffer ≡ acc
      → length s.read_buffer < s.read_len
  read_message-Awaiting header payload acc missing s whole more e h = omega (
    arith,
    ap length whole,
    ap length h,
    length-append acc missing,
    length-append header payload,
    length-append header s.read_buffer,
  )

  -- While a part of the frame is missing, nothing is read.
  read_from_buffer-Awaiting :
      {v : T} (header payload acc missing : Bytes) (s : Inner api)
      → IsFrame limits order c v header payload
      → acc ++ missing ≡ header ++ payload
      → 0 < length missing
      → Awaiting header payload acc s
      → (s' : Inner api) × (read_from_buffer limits order c s ≡ (ok none, s'))
        × Awaiting header payload acc s'
        × Untouched s s'
  read_from_buffer-Awaiting header payload acc missing s f whole more (inl (e, h)) =
      elim (Bool-cases (ltb (length acc) (length header))) [
        | inl short ↦ (
          s,
          read_from_buffer-short limits order c s e
              (omega (arith, ap length h, ltb→lt _ _ short, f.header_size)),
          inl (e, h),
          (refl, refl, refl),
        )
        | inr long ↦
            let (rest, split, left) =
              append-eq-append acc missing header payload whole (ltb→le _ _ long) in
            let s' : Inner api = record s { read_len = length payload; read_buffer = rest } in
            let less =
              read_message-Awaiting header payload acc missing s' whole more refl (sym split) in
            (
              s',
              read_from_buffer-header limits order c rest s f e (h ∙ split)
                  ∙ read_message-waits limits order c s' less,
              inr (omega (arith, less), refl, sym split),
              (refl, refl, refl),
            )
      ]
  read_from_buffer-Awaiting header payload acc missing s f whole more (inr (started, e, h)) = (
    s,
    read_from_buffer-started limits order c s started
        ∙ read_message-waits limits order c s
            (read_message-Awaiting header payload acc missing s whole more e h),
    inr (started, e, h),
    (refl, refl, refl),
  )

  -- As soon as the frame is complete the message is read, and the rest stays in the buffer.
  read_from_buffer_complete :
      {v : T} (header payload acc rest : Bytes) (s : Inner api)
      → IsFrame limits order c v header payload
      → acc ≡ header ++ (payload ++ rest)
      → Awaiting header payload acc s
      → read_from_buffer limits order c s
        ≡ (ok (some v), record s { read_buffer = rest; read_len = 0 })
  read_from_buffer_complete {v} header payload acc rest s f whole (inl (e, h)) =
      read_from_buffer-header limits order c (payload ++ rest) s f e (h ∙ whole)
      ∙ read_message-done limits order c rest
          (record s { read_len = length payload; read_buffer = payload ++ rest }) f refl refl
  read_from_buffer_complete {v} header payload acc rest s f whole (inr (started, e, h)) =
      read_from_buffer-started limits order c s started
      ∙ read_message-done limits order c rest s f e
          (append-cancel header s.read_buffer (payload ++ rest) (h ∙ whole))

  -- Each piece is put into the buffer, and a message asked for.
  abbrev pub udt_feed : Inner api → List Bytes → List (Res x (Option T)) × Inner api
  udt_feed s [] = ([], s)
  udt_feed s (piece ∷ pieces) =
      let (result, s') = read_from_buffer limits order c (extend s piece) in
      let (results, last) = udt_feed s' pieces in (result ∷ results, last)

  feed-Awaiting :
      {v : T} (header payload acc missing : Bytes) (s : Inner api) (pieces : List Bytes)
      → IsFrame limits order c v header payload
      → (acc ++ concat pieces) ++ missing ≡ header ++ payload
      → 0 < length missing
      → Awaiting header payload acc s
      → All IsNothing (udt_feed s pieces).0
        × Awaiting header payload (acc ++ concat pieces) (udt_feed s pieces).1
        × Untouched s (udt_feed s pieces).1
  feed-Awaiting {v} header payload acc missing s [] f whole more a =
      (tt, rw append-nil a, (refl, refl, refl))
  feed-Awaiting {v} header payload acc missing s (b ∷ bs) f whole more a =
      let grouped : (acc ++ b) ++ (concat bs ++ missing) ≡ header ++ payload =
        simp append_assoc (sym (sym whole ∙ simp append_assoc)) in
      let (s', e, a', same) =
        read_from_buffer-Awaiting header payload (acc ++ b) (concat bs ++ missing) (extend s b) f
          grouped (omega (arith, length-append (concat bs) missing))
          (extend-Awaiting header payload acc b s a) in
      let (nothing, a'', same') =
        feed-Awaiting {v = v} header payload (acc ++ b) missing s' bs f
          (append_assoc (acc ++ b) (concat bs) missing ∙ grouped) more a' in
      rw e (
        (refl, nothing),
        rw (append_assoc acc b (concat bs)) at a'',
        (same'.0 ∙ same.0, same'.1 ∙ same.1, same'.2 ∙ same.2),
      )

  -- Over a byte order and a codec that keep their contracts, and however a frame of a message is
  -- cut into pieces, a socket between two frames, with an empty buffer, delivers nothing and fails
  -- nowhere until the last piece, and then the message, which may be empty; the bytes that follow
  -- the frame stay in its buffer. The message must be within the limit, and of a length that fits a
  -- `u32`.
  pub read_from_buffer-feed :
      ByteOrderLaws order
      → Streams c
      → (v : T) (bytes rest last : Bytes) (pieces : List Bytes) (s : Inner api)
      → frame order c v ≡ ok bytes
      → length bytes ≤ u32_size + limits.max_payload_size
      → length bytes < u32_size + u32_mod
      → s.read_len ≡ 0
      → s.read_buffer ≡ []
      → concat pieces ++ last ≡ bytes ++ rest
      → length (concat pieces) < length bytes
      → All IsNothing (udt_feed s pieces).0
        × (read_from_buffer limits order c (extend (udt_feed s pieces).1 last)
            ≡ (ok (some v), record s { read_buffer = rest; read_len = 0 }))
  read_from_buffer-feed laws streams v bytes rest last pieces s h hi small idle clean cut early =
      let (header, payload, split, f) =
        frame-IsFrame limits order c laws streams v bytes h hi small in
      let (missing, before, after) =
        append-eq-append bytes rest (concat pieces) last (sym cut) (omega arith) in
      let (nothing, waiting, same) =
        feed-Awaiting {v = v} header payload [] missing s pieces f (sym before ∙ split)
          (omega (arith, ap length before, length-append (concat pieces) missing))
          (inl (idle, clean)) in
      let s' = (udt_feed s pieces).1 in
      let whole : concat pieces ++ last ≡ header ++ (payload ++ rest) =
        cut ∙ ap (λ t. t ++ rest) split ∙ append_assoc header payload rest in
      (
        nothing,
        read_from_buffer_complete {v = v} header payload (concat pieces ++ last) rest
              (extend s' last) f whole
              (extend-Awaiting header payload (concat pieces) last s' waiting)
            ∙ rw (same.0, same.1, same.2),
      )
