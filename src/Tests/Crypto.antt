-- ===== src/Tests/Crypto.antt =====
-- Witnesses for src/crypto.rs.
use socket_collection.Base.{◌≡◌, refl, length, ◌∷◌}
use socket_collection.Crypto.{DecryptContext, encrypt, dec_encrypted_size_len, same_secret}
use socket_collection.Crypto.Sizes.{length-encrypt-Matching}
use socket_collection.Tests.World.{crates, keys, u32-FixedSizes, zeros}

abbrev dec : DecryptContext crates
dec = DecryptContext.authenticated 7

length-encrypt-Matching_example :
    length (7 ∷ 44 ∷ 1 ∷ 0 ∷ 0 ∷ zeros 47) ≡ dec_encrypted_size_len dec
unfolding encrypt
length-encrypt-Matching_example =
    length-encrypt-Matching u32-FixedSizes {k = keys} 0 300 (7 ∷ 44 ∷ 1 ∷ 0 ∷ 0 ∷ zeros 47)
      (same_secret 7 7 refl) refl
