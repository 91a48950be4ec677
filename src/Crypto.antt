-- ===== src/Crypto.antt =====
-- src/crypto.rs: the encryption contexts and their two operations.
pub mod RoundTrip
pub mod Sizes
use socket_collection.Base.{ℕ, map_err}
use socket_collection.Env.{Crates, Codec, Bytes, Keys}
use socket_collection.Error.{Res, serialisation, crypto}

abbrev pub encrypted_u32_len : ℕ
encrypted_u32_len = 52

abbrev pub serialized_u32_len : ℕ
serialized_u32_len = 4

pub data EncryptContext (x : Crates) : Type 0 where
  null : EncryptContext x
  authenticated : x.SharedSecretKey → EncryptContext x
  anonymous_encrypt : x.PublicEncryptKey → EncryptContext x

pub data DecryptContext (x : Crates) : Type 0 where
  null : DecryptContext x
  authenticated : x.SharedSecretKey → DecryptContext x
  anonymous_decrypt : x.PublicEncryptKey → x.SecretEncryptKey → DecryptContext x

module _ {x : Crates} where
  -- `EncryptContext::null`, which is also the default, `authenticated` and `anonymous_encrypt`.
  abbrev pub enc_null : EncryptContext x
  enc_null = null

  abbrev pub enc_default : EncryptContext x
  enc_default = enc_null

  abbrev pub enc_authenticated : x.SharedSecretKey → EncryptContext x
  enc_authenticated shared_key = authenticated shared_key

  abbrev pub enc_anonymous_encrypt : x.PublicEncryptKey → EncryptContext x
  enc_anonymous_encrypt their_pk = anonymous_encrypt their_pk

  -- `DecryptContext::null`, which is also the default, `authenticated` and `anonymous_decrypt`.
  abbrev pub dec_null : DecryptContext x
  dec_null = null

  abbrev pub dec_default : DecryptContext x
  dec_default = dec_null

  abbrev pub dec_authenticated : x.SharedSecretKey → DecryptContext x
  dec_authenticated shared_key = authenticated shared_key

  abbrev pub dec_anonymous_decrypt : x.PublicEncryptKey → x.SecretEncryptKey → DecryptContext x
  dec_anonymous_decrypt our_pk our_sk = anonymous_decrypt our_pk our_sk

  -- `EncryptContext::encrypt`; the nonce is what the call draws, unused without encryption.
  unfoldable pub encrypt : {T : Type 0} → Codec x T → EncryptContext x → x.Nonce → T → Res x Bytes
  encrypt c null n msg = map_err serialisation (c.serialise msg)
  encrypt c (authenticated shared_key) n msg = map_err crypto (c.shared_encrypt shared_key n msg)
  encrypt c (anonymous_encrypt their_pk) n msg =
      map_err crypto (c.anonymously_encrypt their_pk n msg)

  -- `EncryptContext::encrypted_size_len`.
  unfoldable pub enc_encrypted_size_len : EncryptContext x → ℕ
  enc_encrypted_size_len null = serialized_u32_len
  enc_encrypted_size_len (authenticated shared_key) = encrypted_u32_len
  enc_encrypted_size_len (anonymous_encrypt their_pk) = encrypted_u32_len

  -- `DecryptContext::decrypt`.
  unfoldable pub decrypt : {T : Type 0} → Codec x T → DecryptContext x → Bytes → Res x T
  decrypt c null msg = map_err serialisation (c.deserialise msg)
  decrypt c (authenticated shared_key) msg = map_err crypto (c.shared_decrypt shared_key msg)
  decrypt c (anonymous_decrypt our_pk our_sk) msg =
      map_err crypto (c.anonymously_decrypt our_sk msg our_pk)

  -- `DecryptContext::encrypted_size_len`.
  unfoldable pub dec_encrypted_size_len : DecryptContext x → ℕ
  dec_encrypted_size_len null = serialized_u32_len
  dec_encrypted_size_len (authenticated shared_key) = encrypted_u32_len
  dec_encrypted_size_len (anonymous_decrypt our_pk our_sk) = encrypted_u32_len

  -- The sender's context and the receiver's context that reads it.
  pub data Matching (k : Keys x) : EncryptContext x → DecryptContext x → Type 0 where
    both_null : Matching k null null
    same_secret :
        (s s' : x.SharedSecretKey) → k.Agree s s' → Matching k (authenticated s) (authenticated s')
    key_pair :
        (p : x.PublicEncryptKey) (s : x.SecretEncryptKey)
        → k.IsPair p s
        → Matching k (anonymous_encrypt p) (anonymous_decrypt p s)
