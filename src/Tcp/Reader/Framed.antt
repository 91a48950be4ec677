-- ===== src/Tcp/Reader/Framed.antt =====
-- One whole frame at the front of the buffer of `LenDelimitedReader` in src/tcp.rs.
use socket_collection.Base.{
  ℕ, ◌+◌, ◌%◌, ◌≤◌, ◌<◌, ◌≡◌, refl, sym, ap, ◌∙◌, ◌++◌, none, some, ok, err, length, take,
  take-append, drop-append, length-append, append_assoc, arith, take_of_length-le,
}
use native.Mathlib.Nat.{mod-eq_of_lt}
use socket_collection.Env.{Crates, Codec, Bytes, Keys, RoundTrips, FixedSizes}
use socket_collection.Error.{payload_size_prohibitive}
use socket_collection.Crypto.{
  EncryptContext, DecryptContext, decrypt, enc_encrypted_size_len, dec_encrypted_size_len, Matching,
}
use socket_collection.Crypto.RoundTrip.{decrypt-encrypt}
use socket_collection.Crypto.Sizes.{length-encrypt-Matching, encrypted_size_len-Matching}
use socket_collection.Tcp.Frame.{serialize_with_len, serialize_with_len-parts, u32_mod}
use socket_collection.Tcp.Reader.{
  LenDelimitedReader, header_read, try_read_header, payload_read, read_payload, after_header,
  mark_read, try_read,
}

-- The two parts of a frame of `v`, as a reader with context `d` and limit `max` sees them.
pub record IsFrame {x : Crates} {T : Type 0} (c : Codec x T) (u32 : Codec x ℕ)
    (d : DecryptContext x) (max : ℕ) (v : T) (header payload : Bytes) : Type 0 where
  pub header_size : length header ≡ dec_encrypted_size_len d
  pub header_value : decrypt u32 d header ≡ ok (length payload)
  pub payload_value : decrypt c d payload ≡ ok v
  pub nonempty : 0 < length payload
  pub within : length payload ≤ max

module _ {x : Crates} {T : Type 0} (c : Codec x T) (u32 : Codec x ℕ) where
  -- A buffered header is taken off, and its length remembered.
  pub try_read-header :
      {v : T} {header payload : Bytes} (rest : Bytes) (r : LenDelimitedReader x)
      → IsFrame c u32 r.dec_ctx r.max_payload_size v header payload
      → r.read_len ≡ 0
      → r.read_buffer ≡ header ++ rest
      → try_read c u32 r
        ≡ read_payload c (record r { read_len = length payload; read_buffer = rest })
  unfolding try_read try_read_header header_read
  try_read-header {header = header} {payload} rest r f e b =
      let size = dec_encrypted_size_len r.dec_ctx in
      ground (
        arith,
        take-append size header rest f.header_size,
        drop-append size header rest f.header_size,
        length-append header rest,
        f.header_value,
      )

  -- Less than a header is left alone.
  pub try_read-short :
      (r : LenDelimitedReader x)
      → r.read_len ≡ 0
      → length r.read_buffer < dec_encrypted_size_len r.dec_ctx
      → try_read c u32 r ≡ (ok none, r)
  unfolding try_read try_read_header
  try_read-short r e h = ground arith

  -- Once the length is known the header is not read again.
  pub try_read-started :
      (r : LenDelimitedReader x) → 0 < r.read_len → try_read c u32 r ≡ read_payload c r
  unfolding try_read
  try_read-started r h = ground arith

  pub read_payload-waits :
      (r : LenDelimitedReader x)
      → length r.read_buffer < r.read_len
      → read_payload c r ≡ (ok none, r)
  unfolding read_payload
  read_payload-waits r h = ground arith

  pub read_payload-done :
      (v : T) (payload rest : Bytes) (r : LenDelimitedReader x)
      → decrypt c r.dec_ctx payload ≡ ok v
      → r.read_len ≡ length payload
      → r.read_buffer ≡ payload ++ rest
      → read_payload c r ≡ (ok (some v), record r { read_len = 0; read_buffer = rest })
  unfolding read_payload payload_read mark_read
  read_payload-done v payload rest r h l b = ground (
    arith,
    take-append (length payload) payload rest refl,
    drop-append (length payload) payload rest refl,
    length-append payload rest,
  )

module _ {x : Crates} {T : Type 0} (k : Keys x) (c : Codec x T) (u32 : Codec x ℕ) where
  -- What `serialize_with_len` writes is a frame for a reader with the matching context, if the
  -- payload is not empty, fits the reader's limit, and has a length that fits a `u32`.
  pub serialize_with_len-IsFrame :
      RoundTrips k c
      → RoundTrips k u32
      → FixedSizes u32
      → {e : EncryptContext x} {d : DecryptContext x} (nonces : x.Nonce × x.Nonce)
      → (v : T) (max : ℕ) (bytes : Bytes) → Matching k e d
      → serialize_with_len c u32 e nonces v ≡ ok bytes
      → enc_encrypted_size_len e < length bytes
      → length bytes ≤ enc_encrypted_size_len e + max
      → length bytes < enc_encrypted_size_len e + u32_mod
      → (header : Bytes) × (payload : Bytes) × (bytes ≡ header ++ payload)
        × IsFrame c u32 d max v header payload
  serialize_with_len-IsFrame tc tu fixed {e} {d} (n, m) v max bytes a h lo hi small =
      let (payload, header, p, q, joined) = serialize_with_len-parts c u32 e n m v h in
      let sizes = encrypted_size_len-Matching a in
      let header_size = length-encrypt-Matching fixed m (length payload % u32_mod) header a q in
      let total : length header + length payload ≡ length bytes =
        sym (length-append header payload) ∙ ap length joined in
      let fits : length payload % u32_mod ≡ length payload = mod-eq_of_lt (omega (arith, sizes)) in
      (
        header,
        payload,
        sym joined,
        record {
          header_size = header_size;
          header_value =
              decrypt-encrypt k u32 tu m (length payload % u32_mod) header a q ∙ ap ok fits;
          payload_value = decrypt-encrypt k c tc n v payload a p;
          nonempty = omega (arith, sizes);
          within = omega (arith, sizes);
        },
      )

module _ {x : Crates} {T : Type 0} (k : Keys x) (c : Codec x T) (u32 : Codec x ℕ) where
  -- The length that a reader with the matching context reads off a frame is that of its payload.
  frame-header :
      RoundTrips k u32
      → FixedSizes u32
      → {e : EncryptContext x} {d : DecryptContext x} (nonces : x.Nonce × x.Nonce)
      → (v : T) (bytes : Bytes) → Matching k e d
      → serialize_with_len c u32 e nonces v ≡ ok bytes
      → length bytes < enc_encrypted_size_len e + u32_mod
      → (header : Bytes) × (payload : Bytes) × (bytes ≡ header ++ payload)
        × (length header ≡ dec_encrypted_size_len d)
        × (decrypt u32 d header ≡ ok (length payload))
        × (enc_encrypted_size_len e + length payload ≡ length bytes)
  frame-header tu fixed {e} {d} (n, m) v bytes a h small =
      let (payload, header, p, q, joined) = serialize_with_len-parts c u32 e n m v h in
      let sizes = encrypted_size_len-Matching a in
      let header_size = length-encrypt-Matching fixed m (length payload % u32_mod) header a q in
      let total : length header + length payload ≡ length bytes =
        sym (length-append header payload) ∙ ap length joined in
      (
        header,
        payload,
        sym joined,
        header_size,
        decrypt-encrypt k u32 tu m (length payload % u32_mod) header a q
            ∙ ap ok (mod-eq_of_lt (omega (arith, sizes))),
        omega (arith, sizes),
      )

  -- Over a codec of `u32` with the documented round trip and size: a message that is encrypted to
  -- no bytes at all is lost, since a reader between two frames, with the matching context and the
  -- frame at the front of its buffer, takes the whole frame off and returns `Ok(None)`.
  pub empty_payload_lost :
      RoundTrips k u32
      → FixedSizes u32
      → {e : EncryptContext x} (nonces : x.Nonce × x.Nonce) (v : T) (bytes rest : Bytes)
      → (r : LenDelimitedReader x) → Matching k e r.dec_ctx
      → serialize_with_len c u32 e nonces v ≡ ok bytes
      → length bytes ≡ enc_encrypted_size_len e
      → r.read_len ≡ 0
      → r.read_buffer ≡ bytes ++ rest
      → try_read c u32 r ≡ (ok none, record r { read_len = 0; read_buffer = rest })
  unfolding try_read try_read_header header_read after_header
  empty_payload_lost tu fixed nonces v bytes rest r a h none_left idle b =
      let (header, payload, split, header_size, value, total) =
        frame-header tu fixed nonces v bytes a h (omega arith) in
      let size = dec_encrypted_size_len r.dec_ctx in
      let all_header : length bytes ≡ size = omega (arith, encrypted_size_len-Matching a) in
      let same : bytes ≡ header =
        sym (take_of_length-le size bytes (omega arith))
        ∙ ap (take size) split
        ∙ take-append size header payload header_size in
      let zero_len : length payload ≡ 0 = omega arith in
      ground (
        arith,
        take-append size bytes rest all_header,
        drop-append size bytes rest all_header,
        length-append bytes rest,
      )

  -- Over a codec of `u32` with the documented round trip and size: of a frame that the sender
  -- wrote, with a payload larger than the limit of a reader with the matching context, but of a
  -- length that fits a `u32`, the reader between two frames, with the frame at the front of its
  -- buffer, answers `PayloadSizeProhibitive`.
  pub oversized_refused :
      RoundTrips k u32
      → FixedSizes u32
      → {e : EncryptContext x} (nonces : x.Nonce × x.Nonce) (v : T) (bytes rest : Bytes)
      → (r : LenDelimitedReader x) → Matching k e r.dec_ctx
      → serialize_with_len c u32 e nonces v ≡ ok bytes
      → enc_encrypted_size_len e + r.max_payload_size < length bytes
      → length bytes < enc_encrypted_size_len e + u32_mod
      → r.read_len ≡ 0
      → r.read_buffer ≡ bytes ++ rest
      → (try_read c u32 r).0 ≡ err payload_size_prohibitive
  unfolding try_read try_read_header header_read after_header
  oversized_refused tu fixed nonces v bytes rest r a h over small idle b =
      let (header, payload, split, header_size, value, total) =
        frame-header tu fixed nonces v bytes a h small in
      let size = dec_encrypted_size_len r.dec_ctx in
      let at_header : r.read_buffer ≡ header ++ (payload ++ rest) =
        b ∙ ap (λ t. t ++ rest) split ∙ append_assoc header payload rest in
      ground (
        arith,
        take-append size header (payload ++ rest) header_size,
        length-append header (payload ++ rest),
      )
