-- ===== src/Tcp/Reader/Limits.antt =====
-- The payload limit of `LenDelimitedReader` in src/tcp.rs, and what follows an error.
use socket_collection.Base.{
  ℕ, ◌≤◌, ◌<◌, ◌≡◌, refl, ap, ◌∙◌, ◌≢◌, ◌++◌, Option, none, some, ok, err, length, take,
  length-append, arith, inl, inr, Bool-cases, length-take-le, take-append-le, Bool, true, false,
  ◌⊎◌, ◌==◌,
}
use socket_collection.Env.{Crates, Codec, Bytes}
use socket_collection.Error.{Res, SocketError, payload_size_prohibitive}
use socket_collection.Crypto.{decrypt, dec_encrypted_size_len}
use socket_collection.Tcp.Reader.{
  LenDelimitedReader, put_buf, header_read, try_read_header, payload_read, read_payload,
  after_header, mark_read, try_read,
}
use socket_collection.Tcp.Reader.Framed.{try_read-started}

-- The remembered length respects the limit.
abbrev pub IsBounded : {x : Crates} → LenDelimitedReader x → Type 0
IsBounded r = r.read_len ≤ r.max_payload_size

module _ {x : Crates} {T : Type 0} (c : Codec x T) (u32 : Codec x ℕ) where
  -- What is delivered was decrypted from at most `max_payload_size` bytes.
  abbrev pub FitsLimit : LenDelimitedReader x → Option T → Type 0
  FitsLimit r none = Unit {0}
  FitsLimit r (some v) =
      (payload : Bytes) × (length payload ≤ r.max_payload_size)
      × (decrypt c r.dec_ctx payload ≡ ok v)

  FitsLimit-ap :
      (r s : LenDelimitedReader x) (o : Option T)
      → r.max_payload_size ≡ s.max_payload_size
      → r.dec_ctx ≡ s.dec_ctx
      → FitsLimit r o
      → FitsLimit s o
  FitsLimit-ap r s none m d f = tt
  FitsLimit-ap r s (some v) m d (payload, within, e) = (payload, rw (← m) within, rw (← d) e)

  read_payload-IsBounded :
      (r r' : LenDelimitedReader x) (o : Option T)
      → IsBounded r
      → read_payload c r ≡ (ok o, r')
      → IsBounded r' × (r'.max_payload_size ≡ r.max_payload_size) × FitsLimit r o
  unfolding read_payload payload_read mark_read
  read_payload-IsBounded r r' none b h = ground arith
  read_payload-IsBounded r r' (some v) b h = (
    ground arith,
    ground arith,
    (
      take r.read_len r.read_buffer,
      ground (arith, length-take-le r.read_len r.read_buffer),
      ground arith,
    ),
  )

  try_read_header-IsBounded :
      (r r' : LenDelimitedReader x) (b : Bool)
      → IsBounded r
      → try_read_header u32 r ≡ (ok b, r')
      → IsBounded r' × (r'.max_payload_size ≡ r.max_payload_size) × (r'.dec_ctx ≡ r.dec_ctx)
  unfolding try_read_header header_read
  try_read_header-IsBounded r r' b bounded h = ground arith

  after_header-ok :
      (h : Res x Bool × LenDelimitedReader x) (r' : LenDelimitedReader x) (o : Option T)
      → after_header c h ≡ (ok o, r')
      → ((r : LenDelimitedReader x) × (h ≡ (ok true, r)) × (read_payload c r ≡ (ok o, r')))
        ⊎ ((h ≡ (ok false, r')) × (o ≡ none))
  unfolding after_header
  after_header-ok (err e, r) r' o p = cc
  after_header-ok (ok true, r) r' o p = inl (r, refl, p)
  after_header-ok (ok false, r) r' o p = inr (ground arith, ground arith)

  -- If the remembered length is within the limit, then a `try_read` that does not fail keeps it so,
  -- leaves the limit as it was, and delivers only what it decrypted from at most
  -- `max_payload_size` bytes.
  pub try_read-IsBounded :
      (r r' : LenDelimitedReader x) (o : Option T)
      → IsBounded r
      → try_read c u32 r ≡ (ok o, r')
      → IsBounded r' × (r'.max_payload_size ≡ r.max_payload_size) × FitsLimit r o
  unfolding try_read
  try_read-IsBounded r r' o b h = elim (Bool-cases (r.read_len == 0)) [
    | inl idle ↦ elim (after_header-ok (try_read_header u32 r) r' o (rw (idle, try_read) at h)) [
      | inl (r1, p, q) ↦
          let (b1, m1, d1) = try_read_header-IsBounded r r1 true b p in
          let (b', m', fits) = read_payload-IsBounded r1 r' o b1 q in
          (b', m' ∙ m1, FitsLimit-ap r1 r o m1 d1 fits)
      | inr (p, e) ↦ let (b', m', _) = try_read_header-IsBounded r r' false b p in (b', m', rw e tt)
    ]
    | inr started ↦ read_payload-IsBounded r r' o b (rw (started, try_read) at h)
  ]

  -- The limit is enforced once only. If the buffer of a reader between two frames holds a header
  -- that decrypts to a length over the limit, the first `try_read` answers
  -- `PayloadSizeProhibitive`; but if the next one finds that many bytes in the buffer, the header
  -- among them, and they decrypt, it delivers the message.
  pub prohibitive_once :
      (r : LenDelimitedReader x) (n : ℕ) (later : Bytes) (v : T)
      → r.read_len ≡ 0
      → dec_encrypted_size_len r.dec_ctx ≤ length r.read_buffer
      → decrypt u32 r.dec_ctx (take (dec_encrypted_size_len r.dec_ctx) r.read_buffer) ≡ ok n
      → r.max_payload_size < n
      → n ≤ length (r.read_buffer ++ later)
      → decrypt c r.dec_ctx (take n (r.read_buffer ++ later)) ≡ ok v
      → ((try_read c u32 r).0 ≡ err payload_size_prohibitive)
        × ((try_read c u32 (put_buf (try_read c u32 r).1 later)).0 ≡ ok (some v))
  unfolding try_read try_read_header header_read put_buf read_payload payload_read mark_read
  prohibitive_once r n later v idle enough long over more h = ground arith

  read_payload-err :
      (r r' : LenDelimitedReader x) (e : SocketError x) (later : Bytes)
      → read_payload c r ≡ (err e, r')
      → (r' ≡ r) × ((read_payload c (put_buf r' later)).0 ≡ err e)
  unfolding read_payload payload_read put_buf
  read_payload-err r r' e later h =
      ground
        (arith, take-append-le r.read_len r.read_buffer later, length-append r.read_buffer later)

  try_read_header-err :
      (r r' : LenDelimitedReader x) (e : SocketError x) (later : Bytes)
      → e ≢ payload_size_prohibitive
      → try_read_header u32 r ≡ (err e, r')
      → (r' ≡ r) × ((try_read_header u32 (put_buf r' later)).0 ≡ err e)
  unfolding try_read_header header_read put_buf
  try_read_header-err r r' e later other h = ground (
    arith,
    take-append-le (dec_encrypted_size_len r.dec_ctx) r.read_buffer later,
    length-append r.read_buffer later,
  )

  after_header-err :
      (h : Res x Bool × LenDelimitedReader x) (r' : LenDelimitedReader x) (e : SocketError x)
      → after_header c h ≡ (err e, r')
      → (h ≡ (err e, r'))
        ⊎ ((r : LenDelimitedReader x) × (h ≡ (ok true, r)) × (read_payload c r ≡ (err e, r')))
  unfolding after_header
  after_header-err (err f, r) r' e p = inl (ground arith)
  after_header-err (ok true, r) r' e p = inr (r, refl, p)
  after_header-err (ok false, r) r' e p = cc

  after_header-fails :
      (h : Res x Bool × LenDelimitedReader x) (e : SocketError x)
      → h.0 ≡ err e
      → (after_header c h).0 ≡ err e
  unfolding after_header
  after_header-fails (err f, r) e p = ground arith
  after_header-fails (ok b, r) e p = cc

  header-started :
      (r r' : LenDelimitedReader x) → try_read_header u32 r ≡ (ok true, r') → 0 < r'.read_len
  unfolding try_read_header header_read
  header-started r r' h = ground arith

  try_read-idle :
      (r : LenDelimitedReader x)
      → r.read_len ≡ 0
      → try_read c u32 r ≡ after_header c (try_read_header u32 r)
  unfolding try_read
  try_read-idle r h = ground arith

  -- An error other than the limit's is final: whatever arrives later, the next `try_read` returns
  -- the same error.
  pub try_read-err :
      (r r' : LenDelimitedReader x) (e : SocketError x) (later : Bytes)
      → e ≢ payload_size_prohibitive
      → try_read c u32 r ≡ (err e, r')
      → (try_read c u32 (put_buf r' later)).0 ≡ err e
  unfolding try_read put_buf
  try_read-err r r' e later other h = elim (Bool-cases (r.read_len == 0)) [
    | inl idle ↦ elim (after_header-err (try_read_header u32 r) r' e (rw (idle, try_read) at h)) [
      | inl p ↦
          let (same, fails) = try_read_header-err r r' e later other p in
          let still : r'.read_len ≡ 0 = ap (λ t. t.read_len) same ∙ ground arith in
          rw (try_read-idle (put_buf r' later) still) (after_header-fails _ e fails)
      | inr (r1, p, q) ↦
          let (same, fails) = read_payload-err r1 r' e later q in
          let started : 0 < r'.read_len = rw same (header-started r r1 p) in
          rw (try_read-started c u32 (put_buf r' later) started) fails
    ]
    | inr started ↦
        let (same, fails) = read_payload-err r r' e later (rw (started, try_read) at h) in
        let still : 0 < r'.read_len = rw same (ground arith) in
        rw (try_read-started c u32 (put_buf r' later) still) fails
  ]
