-- ===== src/Crypto/RoundTrip.antt =====
-- What `encrypt` of src/crypto.rs writes, `decrypt` reads.
use socket_collection.Base.{◌≡◌, ok, arith}
use socket_collection.Env.{Crates, Codec, Bytes, Keys, RoundTrips}
use socket_collection.Crypto.{
  EncryptContext, DecryptContext, encrypt, decrypt, Matching, both_null, same_secret, key_pair,
}

module _ {x : Crates} (k : Keys x) {T : Type 0} (c : Codec x T) (trips : RoundTrips k c) where
  -- Under matching contexts, and for a codec whose external functions round-trip, a message that
  -- is encrypted with success is decrypted to itself.
  pub decrypt-encrypt :
      {e : EncryptContext x} {d : DecryptContext x} (n : x.Nonce) (v : T) (b : Bytes)
      → Matching k e d
      → encrypt c e n v ≡ ok b
      → decrypt c d b ≡ ok v
  unfolding encrypt decrypt
  decrypt-encrypt n v b both_null h = ground (arith, trips.serialised v b)
  decrypt-encrypt n v b (same_secret s s' a) h = ground (arith, trips.shared s s' n v b a)
  decrypt-encrypt n v b (key_pair p s a) h = ground (arith, trips.anonymous p s n v b a)
