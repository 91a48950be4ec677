-- ===== src/Tests/Frames.antt =====
-- Witnesses for the frames and the reader of src/tcp.rs.
use socket_collection.Base.{ℕ, ◌≡◌, ◌≢◌, List, refl, ok, err, none, some, [], ◌∷◌, All, arith}
use socket_collection.Env.{Bytes}
use socket_collection.Error.{SocketError, crypto, payload_size_prohibitive}
use socket_collection.Crypto.{
  EncryptContext, DecryptContext, encrypt, decrypt, enc_encrypted_size_len, dec_encrypted_size_len,
  both_null,
}
use socket_collection.Tcp.Frame.{serialize_with_len}
use socket_collection.Tcp.Reader.{
  LenDelimitedReader, put_buf, mark_read, payload_read, read_payload, try_read,
}
use socket_collection.Tcp.Reader.Framed.{empty_payload_lost, oversized_refused}
use socket_collection.Tcp.Reader.Fragments.{IsNothing, feed, try_read-feed}
use socket_collection.Tcp.Reader.Limits.{
  IsBounded, FitsLimit, try_read-IsBounded, prohibitive_once, try_read-err,
}
use socket_collection.Tests.World.{
  crates, keys, messages, messages-RoundTrips, u32, u32-RoundTrips, u32-FixedSizes,
}

-- A reader without encryption, with this limit, remembered length and buffer.
abbrev pub plain : ℕ → ℕ → Bytes → LenDelimitedReader crates
plain limit len buffer = record {
  read_buffer = buffer;
  read_len = len;
  max_payload_size = limit;
  dec_ctx = DecryptContext.null;
}

abbrev pub null_ctx : EncryptContext crates
null_ctx = EncryptContext.null

-- The frame of a message of three bytes.
abbrev pub frame_3 : Bytes
frame_3 = 3 ∷ 0 ∷ 0 ∷ 0 ∷ 1 ∷ 2 ∷ 3 ∷ []

pub frame_3-sent : serialize_with_len messages u32 null_ctx (0, 0) (1 ∷ 2 ∷ 3 ∷ []) ≡ ok frame_3
unfolding serialize_with_len encrypt
frame_3-sent = refl

empty_sent : serialize_with_len messages u32 null_ctx (0, 0) [] ≡ ok (0 ∷ 0 ∷ 0 ∷ 0 ∷ [])
unfolding serialize_with_len encrypt
empty_sent = refl

-- The frame comes in three pieces, the last of them with a byte of what follows.
try_read-feed_example :
    let pieces : List Bytes = (3 ∷ 0 ∷ []) ∷ (0 ∷ 0 ∷ 1 ∷ []) ∷ [] in
    All (IsNothing messages u32) (feed messages u32 (plain 10 0 []) pieces).0
    × (try_read messages u32 (put_buf (feed messages u32 (plain 10 0 []) pieces).1 (2 ∷ 3 ∷ 9 ∷ []))
        ≡ (ok (some (1 ∷ 2 ∷ 3 ∷ [])), plain 10 0 (9 ∷ [])))
unfolding enc_encrypted_size_len
try_read-feed_example =
    try_read-feed keys messages u32 messages-RoundTrips u32-RoundTrips u32-FixedSizes (0, 0)
      (1 ∷ 2 ∷ 3 ∷ []) frame_3 (9 ∷ []) (2 ∷ 3 ∷ 9 ∷ []) ((3 ∷ 0 ∷ []) ∷ (0 ∷ 0 ∷ 1 ∷ []) ∷ [])
      (plain 10 0 []) both_null frame_3-sent (omega arith) (omega arith) (omega arith) refl refl
      refl (omega arith)

empty_payload_lost_example :
    try_read messages u32 (plain 10 0 (0 ∷ 0 ∷ 0 ∷ 0 ∷ 9 ∷ [])) ≡ (ok none, plain 10 0 (9 ∷ []))
unfolding enc_encrypted_size_len
empty_payload_lost_example =
    empty_payload_lost keys messages u32 u32-RoundTrips u32-FixedSizes (0, 0) []
      (0 ∷ 0 ∷ 0 ∷ 0 ∷ []) (9 ∷ []) (plain 10 0 (0 ∷ 0 ∷ 0 ∷ 0 ∷ 9 ∷ [])) both_null empty_sent refl
      refl refl

oversized_refused_example :
    (try_read messages u32 (plain 2 0 (3 ∷ 0 ∷ 0 ∷ 0 ∷ 1 ∷ 2 ∷ 3 ∷ 9 ∷ []))).0
    ≡ err payload_size_prohibitive
unfolding enc_encrypted_size_len
oversized_refused_example =
    oversized_refused keys messages u32 u32-RoundTrips u32-FixedSizes (0, 0) (1 ∷ 2 ∷ 3 ∷ [])
      frame_3 (9 ∷ []) (plain 2 0 (3 ∷ 0 ∷ 0 ∷ 0 ∷ 1 ∷ 2 ∷ 3 ∷ 9 ∷ [])) both_null frame_3-sent
      (omega arith) (omega arith) refl refl

prohibitive_once_example :
    ((try_read messages u32 (plain 2 0 (3 ∷ 0 ∷ 0 ∷ 0 ∷ []))).0 ≡ err payload_size_prohibitive)
    × ((try_read messages u32
          (put_buf (try_read messages u32 (plain 2 0 (3 ∷ 0 ∷ 0 ∷ 0 ∷ []))).1 (1 ∷ []))).0
        ≡ ok (some (3 ∷ 0 ∷ 0 ∷ [])))
unfolding decrypt dec_encrypted_size_len
prohibitive_once_example =
    prohibitive_once messages u32 (plain 2 0 (3 ∷ 0 ∷ 0 ∷ 0 ∷ [])) 3 (1 ∷ []) (3 ∷ 0 ∷ 0 ∷ []) refl
      (omega arith) refl (omega arith) (omega arith) refl

try_read-IsBounded_example :
    IsBounded (plain 5 0 (9 ∷ []))
    × (◌≡◌ {A = ℕ} 5 5)
    × FitsLimit messages u32 (plain 5 3 (1 ∷ 2 ∷ 3 ∷ 9 ∷ [])) (some (1 ∷ 2 ∷ 3 ∷ []))
unfolding try_read read_payload payload_read mark_read decrypt
try_read-IsBounded_example =
    try_read-IsBounded messages u32 (plain 5 3 (1 ∷ 2 ∷ 3 ∷ 9 ∷ [])) (plain 5 0 (9 ∷ []))
      (some (1 ∷ 2 ∷ 3 ∷ [])) (omega arith) refl

-- A reader whose shared secret is another one.
abbrev locked : LenDelimitedReader crates
locked = record (plain 5 3 (1 ∷ 2 ∷ 3 ∷ [])) { dec_ctx = DecryptContext.authenticated 7 }

crypto-ne-prohibitive : ◌≢◌ {A = SocketError crates} (crypto 1) payload_size_prohibitive
crypto-ne-prohibitive h = cc

try_read-err_example : (try_read messages u32 (put_buf locked (4 ∷ []))).0 ≡ err (crypto 1)
unfolding try_read read_payload payload_read decrypt
try_read-err_example =
    try_read-err messages u32 locked locked (crypto 1) (4 ∷ []) crypto-ne-prohibitive refl
