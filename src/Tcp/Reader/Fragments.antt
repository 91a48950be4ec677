-- ===== src/Tcp/Reader/Fragments.antt =====
-- A frame that arrives in pieces at `LenDelimitedReader` of src/tcp.rs.
use socket_collection.Base.{
  ℕ, ◌+◌, ◌≤◌, ◌<◌, ◌≡◌, refl, sym, ap, ◌∙◌, List, [], ◌∷◌, ◌++◌, Option, none, some, ok, length,
  All, concat, ltb, append-eq-append, append-cancel, ltb→lt, length-append, append_assoc,
  append-nil, arith, ◌⊎◌, inl, inr, Bool-cases, ltb→le,
}
use socket_collection.Env.{Crates, Codec, Bytes, Keys, RoundTrips, FixedSizes}
use socket_collection.Error.{Res}
use socket_collection.Crypto.{EncryptContext, enc_encrypted_size_len, Matching}
use socket_collection.Tcp.Frame.{serialize_with_len, u32_mod}
use socket_collection.Tcp.Reader.{LenDelimitedReader, put_buf, read_payload, try_read}
use socket_collection.Tcp.Reader.Framed.{
  IsFrame, try_read-header, try_read-short, try_read-started, read_payload-waits, read_payload-done,
  serialize_with_len-IsFrame,
}

module _ {x : Crates} where
  -- The reader has received `acc` of a frame, and may have taken off the header.
  abbrev Awaiting : Bytes → Bytes → Bytes → LenDelimitedReader x → Type 0
  Awaiting header payload acc r =
      ((r.read_len ≡ 0) × (r.read_buffer ≡ acc))
      ⊎ ((r.read_len ≡ length payload) × (header ++ r.read_buffer ≡ acc))

  pub put_buf-clean :
      (r : LenDelimitedReader x) (bytes : Bytes)
      → r.read_buffer ≡ []
      → put_buf r bytes ≡ record r { read_buffer = bytes }
  unfolding put_buf
  put_buf-clean r bytes h = ap (λ l. record r { read_buffer = l ++ bytes }) h

  pub put_buf-nil : (r : LenDelimitedReader x) → put_buf r [] ≡ r
  unfolding put_buf
  put_buf-nil r = rw append-nil

  pub put_buf-append :
      (r : LenDelimitedReader x) (b d : Bytes) → put_buf (put_buf r b) d ≡ put_buf r (b ++ d)
  unfolding put_buf
  put_buf-append r b d = rw append_assoc

  put_buf-Awaiting :
      (header payload acc b : Bytes) (r : LenDelimitedReader x)
      → Awaiting header payload acc r
      → Awaiting header payload (acc ++ b) (put_buf r b)
  unfolding put_buf
  put_buf-Awaiting header payload acc b r (inl (e, h)) = inl (e, ap (λ t. t ++ b) h)
  put_buf-Awaiting header payload acc b r (inr (e, h)) =
      inr (e, sym (append_assoc header r.read_buffer b) ∙ ap (λ t. t ++ b) h)

module _ {x : Crates} {T : Type 0} (c : Codec x T) (u32 : Codec x ℕ) where
  read_payload-Awaiting :
      (header payload acc missing : Bytes) (r : LenDelimitedReader x)
      → acc ++ missing ≡ header ++ payload
      → 0 < length missing
      → r.read_len ≡ length payload
      → header ++ r.read_buffer ≡ acc
      → read_payload c r ≡ (ok none, r)
  read_payload-Awaiting header payload acc missing r whole more e h = read_payload-waits c u32 r (
      omega (
        arith,
        ap length whole,
        ap length h,
        length-append acc missing,
        length-append header payload,
        length-append header r.read_buffer,
      ))

  -- While a part of the frame is missing, nothing is read.
  try_read-Awaiting :
      {v : T} (header payload acc missing : Bytes) (r : LenDelimitedReader x)
      → IsFrame c u32 r.dec_ctx r.max_payload_size v header payload
      → acc ++ missing ≡ header ++ payload
      → 0 < length missing
      → Awaiting header payload acc r
      → (r' : LenDelimitedReader x) × (try_read c u32 r ≡ (ok none, r'))
        × Awaiting header payload acc r'
        × (r'.dec_ctx ≡ r.dec_ctx)
        × (r'.max_payload_size ≡ r.max_payload_size)
  try_read-Awaiting header payload acc missing r f whole more (inl (e, h)) =
      elim (Bool-cases (ltb (length acc) (length header))) [
        | inl short ↦ (
          r,
          try_read-short c u32 r e (omega (arith, ap length h, ltb→lt _ _ short, f.header_size)),
          inl (e, h),
          refl,
          refl,
        )
        | inr long ↦
            let (rest, split, left) =
              append-eq-append acc missing header payload whole (ltb→le _ _ long) in
            let r' : LenDelimitedReader x = record r {
              read_len = length payload;
              read_buffer = rest;
            } in
            (
              r',
              try_read-header c u32 rest r f e (h ∙ split)
                  ∙ read_payload-Awaiting header payload acc missing r' whole more refl (sym split),
              inr (refl, sym split),
              refl,
              refl,
            )
      ]
  try_read-Awaiting header payload acc missing r f whole more (inr (e, h)) = (
    r,
    try_read-started c u32 r (omega (arith, f.nonempty))
        ∙ read_payload-Awaiting header payload acc missing r whole more e h,
    inr (e, h),
    refl,
    refl,
  )

  -- As soon as the frame is complete the message is read, and the rest stays in the buffer.
  try_read_complete :
      {v : T} (header payload acc rest : Bytes) (r : LenDelimitedReader x)
      → IsFrame c u32 r.dec_ctx r.max_payload_size v header payload
      → acc ≡ header ++ (payload ++ rest)
      → Awaiting header payload acc r
      → try_read c u32 r ≡ (ok (some v), record r { read_buffer = rest; read_len = 0 })
  try_read_complete {v} header payload acc rest r f whole (inl (e, h)) =
      try_read-header c u32 (payload ++ rest) r f e (h ∙ whole)
      ∙ read_payload-done c u32 v payload rest _ f.payload_value refl refl
  try_read_complete {v} header payload acc rest r f whole (inr (e, h)) =
      try_read-started c u32 r (omega (arith, f.nonempty))
      ∙ read_payload-done c u32 v payload rest r f.payload_value e
          (append-cancel header r.read_buffer (payload ++ rest) (h ∙ whole))

  -- A socket that becomes readable again and again: each piece is put into the reader, and a
  -- message is asked for.
  abbrev pub feed :
      LenDelimitedReader x → List Bytes → List (Res x (Option T)) × LenDelimitedReader x
  feed r [] = ([], r)
  feed r (piece ∷ pieces) =
      let (result, r') = try_read c u32 (put_buf r piece) in
      let (results, last) = feed r' pieces in (result ∷ results, last)

  abbrev pub IsNothing : Res x (Option T) → Type 0
  IsNothing result = result ≡ ok none

  feed-Awaiting :
      {v : T} (header payload acc missing : Bytes) (r : LenDelimitedReader x) (pieces : List Bytes)
      → IsFrame c u32 r.dec_ctx r.max_payload_size v header payload
      → (acc ++ concat pieces) ++ missing ≡ header ++ payload
      → 0 < length missing
      → Awaiting header payload acc r
      → All IsNothing (feed r pieces).0
        × Awaiting header payload (acc ++ concat pieces) (feed r pieces).1
        × ((feed r pieces).1.dec_ctx ≡ r.dec_ctx)
        × ((feed r pieces).1.max_payload_size ≡ r.max_payload_size)
  unfolding put_buf
  feed-Awaiting {v} header payload acc missing r [] f whole more a =
      (tt, rw append-nil a, refl, refl)
  feed-Awaiting {v} header payload acc missing r (b ∷ bs) f whole more a =
      let grouped : (acc ++ b) ++ (concat bs ++ missing) ≡ header ++ payload =
        simp append_assoc (sym (sym whole ∙ simp append_assoc)) in
      let (r', e, a', ctx, limit) =
        try_read-Awaiting header payload (acc ++ b) (concat bs ++ missing) (put_buf r b) f grouped
          (omega (arith, length-append (concat bs) missing))
          (put_buf-Awaiting header payload acc b r a) in
      let (nothing, a'', ctx', limit') =
        feed-Awaiting {v = v} header payload (acc ++ b) missing r' bs (rw (ctx, limit) f)
          (append_assoc (acc ++ b) (concat bs) missing ∙ grouped) more a' in
      rw e ((refl, nothing), rw (append_assoc acc b (concat bs)) at a'', ctx' ∙ ctx, limit' ∙ limit)

module _ {x : Crates} {T : Type 0} (k : Keys x) (c : Codec x T) (u32 : Codec x ℕ) where
  -- Over codecs with the documented round trips and sizes, and however a frame of
  -- `serialize_with_len` is cut into pieces, a reader between two frames, with an empty buffer and
  -- the matching context, delivers nothing and fails nowhere until the last piece, and then the
  -- message; the bytes that follow the frame stay in its buffer. The payload must be nonempty,
  -- within the reader's limit, and of a length that fits a `u32`.
  pub try_read-feed :
      RoundTrips k c
      → RoundTrips k u32
      → FixedSizes u32
      → {e : EncryptContext x} (nonces : x.Nonce × x.Nonce) (v : T) (bytes rest last : Bytes)
      → (pieces : List Bytes) (r : LenDelimitedReader x) → Matching k e r.dec_ctx
      → serialize_with_len c u32 e nonces v ≡ ok bytes
      → enc_encrypted_size_len e < length bytes
      → length bytes ≤ enc_encrypted_size_len e + r.max_payload_size
      → length bytes < enc_encrypted_size_len e + u32_mod
      → r.read_len ≡ 0
      → r.read_buffer ≡ []
      → concat pieces ++ last ≡ bytes ++ rest
      → length (concat pieces) < length bytes
      → All (IsNothing c u32) (feed c u32 r pieces).0
        × (try_read c u32 (put_buf (feed c u32 r pieces).1 last)
            ≡ (ok (some v), record r { read_buffer = rest; read_len = 0 }))
  unfolding put_buf
  try_read-feed tc tu fixed {e} nonces v bytes rest last pieces r a h lo hi small idle clean cut
        early =
      let (header, payload, split, f) =
        serialize_with_len-IsFrame k c u32 tc tu fixed nonces v r.max_payload_size bytes a h lo hi
          small in
      let (missing, before, after) =
        append-eq-append bytes rest (concat pieces) last (sym cut) (omega arith) in
      let (nothing, waiting, ctx, limit) =
        feed-Awaiting c u32 {v = v} header payload [] missing r pieces f (sym before ∙ split)
          (omega (arith, ap length before, length-append (concat pieces) missing))
          (inl (idle, clean)) in
      let r' = (feed c u32 r pieces).1 in
      let whole : concat pieces ++ last ≡ header ++ (payload ++ rest) =
        cut ∙ ap (λ t. t ++ rest) split ∙ append_assoc header payload rest in
      (
        nothing,
        try_read_complete c u32 {v = v} header payload (concat pieces ++ last) rest
              (put_buf r' last) (rw (ctx, limit) f) whole
              (put_buf-Awaiting header payload (concat pieces) last r' waiting)
            ∙ rw (ctx, limit),
      )
