-- ===== src/Env.antt =====
-- What the crate takes from others: the types of `maidsafe_utilities::serialisation` and
-- `safe_crypto`, and their functions at one message type. None of it is defined here.
use socket_collection.Base.{ℕ, Result, List, ◌≡◌, ok, length}

-- A `Vec<u8>` or a `&[u8]`, one number for each byte.
abbrev pub Bytes : Type 0
Bytes = List ℕ

-- The types that the crate passes through unread.
pub record Crates : Type 1 where
  pub SerialisationError : Type 0
  pub CryptoError : Type 0
  pub SharedSecretKey : Type 0
  pub PublicEncryptKey : Type 0
  pub SecretEncryptKey : Type 0
  -- What one call of a `safe_crypto` encryption draws from the random generator.
  pub Nonce : Type 0
  pub SocketAddr : Type 0

-- `serialise`, `deserialise` and the `safe_crypto` methods at the message type `T`.
pub record Codec (x : Crates) (T : Type 0) : Type 0 where
  pub serialise : T → Result x.SerialisationError Bytes
  pub deserialise : Bytes → Result x.SerialisationError T
  pub shared_encrypt : x.SharedSecretKey → x.Nonce → T → Result x.CryptoError Bytes
  pub shared_decrypt : x.SharedSecretKey → Bytes → Result x.CryptoError T
  pub anonymously_encrypt : x.PublicEncryptKey → x.Nonce → T → Result x.CryptoError Bytes
  pub anonymously_decrypt : x.SecretEncryptKey → Bytes → x.PublicEncryptKey → Result x.CryptoError T

-- Which keys belong together: two shared secrets that two peers computed from each other's keys,
-- and the two halves of a key pair.
pub record Keys (x : Crates) : Type 1 where
  pub Agree : x.SharedSecretKey → x.SharedSecretKey → Type 0
  pub IsPair : x.PublicEncryptKey → x.SecretEncryptKey → Type 0

-- The documented contract of the two crates: what was written with a key is read back with the key
-- that belongs to it.
pub record RoundTrips {x : Crates} (k : Keys x) {T : Type 0} (c : Codec x T) : Type 0 where
  pub serialised : (v : T) (b : Bytes) → c.serialise v ≡ ok b → c.deserialise b ≡ ok v
  pub shared :
      (s s' : x.SharedSecretKey) (n : x.Nonce) (v : T) (b : Bytes)
      → k.Agree s s'
      → c.shared_encrypt s n v ≡ ok b
      → c.shared_decrypt s' b ≡ ok v
  pub anonymous :
      (p : x.PublicEncryptKey) (s : x.SecretEncryptKey) (n : x.Nonce) (v : T) (b : Bytes)
      → k.IsPair p s
      → c.anonymously_encrypt p n v ≡ ok b
      → c.anonymously_decrypt s b p ≡ ok v

-- "safe_crypto always serializes 32 bit number into 52 byte array", "bincode serializes 32 bit
-- number into 4 byte array": the sizes that `crypto.rs` relies on, at the message type `u32`.
pub record FixedSizes {x : Crates} (u32 : Codec x ℕ) : Type 0 where
  pub serialised : (m : ℕ) (b : Bytes) → u32.serialise m ≡ ok b → length b ≡ 4
  pub shared :
      (s : x.SharedSecretKey) (n : x.Nonce) (m : ℕ) (b : Bytes)
      → u32.shared_encrypt s n m ≡ ok b
      → length b ≡ 52
  pub anonymous :
      (p : x.PublicEncryptKey) (n : x.Nonce) (m : ℕ) (b : Bytes)
      → u32.anonymously_encrypt p n m ≡ ok b
      → length b ≡ 52
