-- ===== src/Crypto/Sizes.antt =====
-- `encrypted_size_len` of src/crypto.rs, the length of an encrypted frame header.
use socket_collection.Base.{◌<◌, ℕ, ◌≡◌, refl, ◌∙◌, ok, arith, length}
use socket_collection.Env.{Crates, Codec, Bytes, Keys, FixedSizes}
use socket_collection.Crypto.{
  EncryptContext, DecryptContext, encrypt, enc_encrypted_size_len, dec_encrypted_size_len, Matching,
  both_null, same_secret, key_pair, anonymous_encrypt,
}

module _ {x : Crates} where
  -- "The returned value must match `EncryptContext::encrypted_size_len()`".
  pub encrypted_size_len-Matching :
      {k : Keys x} {e : EncryptContext x} {d : DecryptContext x}
      → Matching k e d
      → enc_encrypted_size_len e ≡ dec_encrypted_size_len d
  unfolding enc_encrypted_size_len dec_encrypted_size_len
  encrypted_size_len-Matching both_null = refl
  encrypted_size_len-Matching (same_secret s s' a) = refl
  encrypted_size_len-Matching (key_pair p s a) = refl

  -- An encrypted `u32` has the length that `encrypted_size_len` announces.
  pub length-encrypt :
      {u32 : Codec x ℕ} (fixed : FixedSizes u32) (e : EncryptContext x)
      → (n : x.Nonce) (m : ℕ) (b : Bytes) → encrypt u32 e n m ≡ ok b
      → length b ≡ enc_encrypted_size_len e
  unfolding encrypt enc_encrypted_size_len
  length-encrypt fixed EncryptContext.null n m b h = ground (arith, fixed.serialised m b)
  length-encrypt fixed (EncryptContext.authenticated s) n m b h =
      ground (arith, fixed.shared s n m b)
  length-encrypt fixed (anonymous_encrypt p) n m b h = ground (arith, fixed.anonymous p n m b)

  -- Over a codec of `u32` with the documented sizes, an encrypted `u32` is exactly as long as a
  -- receiver with the matching context takes a header to be.
  pub length-encrypt-Matching :
      {u32 : Codec x ℕ} (fixed : FixedSizes u32) {k : Keys x} {e : EncryptContext x}
      → {d : DecryptContext x} (n : x.Nonce) (m : ℕ) (b : Bytes) → Matching k e d
      → encrypt u32 e n m ≡ ok b
      → length b ≡ dec_encrypted_size_len d
  length-encrypt-Matching fixed {e = e} n m b a h =
      length-encrypt fixed e n m b h ∙ encrypted_size_len-Matching a

-- No context encrypts a number to nothing.
pub dec_encrypted_size_len-pos : {x : Crates} (d : DecryptContext x) → 0 < dec_encrypted_size_len d
unfolding dec_encrypted_size_len
dec_encrypted_size_len-pos DecryptContext.null = omega arith
dec_encrypted_size_len-pos (DecryptContext.authenticated key) = omega arith
dec_encrypted_size_len-pos (DecryptContext.anonymous_decrypt pk sk) = omega arith
