-- ===== src/Tcp/Frame.antt =====
-- The wire format of src/tcp.rs: an encrypted length, then the encrypted message.
use socket_collection.Base.{ℕ, ◌%◌, ◌^◌, ◌++◌, length, ok, ◌≡◌, arith}
use socket_collection.Base.Try.{◌>>=◌, >>=-eq-ok}
use socket_collection.Env.{Crates, Codec, Bytes}
use socket_collection.Error.{Res}
use socket_collection.Crypto.{EncryptContext, encrypt}

-- The number of values of a `u32`.
abbrev pub u32_mod : ℕ
u32_mod = 2 ^ 32

-- `serialize_with_len`; the two nonces are those of its two encryptions. The writes to the
-- in-memory cursor append, and cannot fail.
unfoldable pub serialize_with_len :
    {x : Crates} {T : Type 0}
    → Codec x T
    → Codec x ℕ
    → EncryptContext x
    → x.Nonce × x.Nonce
    → T
    → Res x Bytes
serialize_with_len c u32 enc_ctx (n, m) value = do
  encrypted_data ← encrypt c enc_ctx n value
  encrypted_len ← encrypt u32 enc_ctx m (length encrypted_data % u32_mod)
  ok (encrypted_len ++ encrypted_data)

-- A frame that was written is the encrypted length of the payload, then the payload.
pub serialize_with_len-parts :
    {x : Crates} {T : Type 0} (c : Codec x T) (u32 : Codec x ℕ) (e : EncryptContext x)
    → (n m : x.Nonce) (v : T) {bytes : Bytes} → serialize_with_len c u32 e (n, m) v ≡ ok bytes
    → (payload : Bytes) × (header : Bytes) × (encrypt c e n v ≡ ok payload)
      × (encrypt u32 e m (length payload % u32_mod) ≡ ok header)
      × (header ++ payload ≡ bytes)
unfolding serialize_with_len
serialize_with_len-parts c u32 e n m v h =
    let (payload, p, h') = >>=-eq-ok (encrypt c e n v) _ h in
    let (header, q, written) = >>=-eq-ok (encrypt u32 e m (length payload % u32_mod)) _ h' in
    (payload, header, p, q, ground arith)
