-- ===== src/Tcp/Reader.antt =====
-- `LenDelimitedReader` of src/tcp.rs.
pub mod Framed
pub mod Fragments
pub mod Limits
use socket_collection.Base.{
  ℕ, ◌++◌, Bool, true, false, Option, none, some, ok, err, length, take, drop, ltb, ◌==◌,
  if◌then◌else◌, [],
}
use socket_collection.Env.{Crates, Codec, Bytes}
use socket_collection.Error.{Res, payload_size_prohibitive}
use socket_collection.Crypto.{DecryptContext, decrypt, dec_encrypted_size_len}

pub record LenDelimitedReader (x : Crates) : Type 0 where
  pub read_buffer : Bytes
  pub read_len : ℕ
  pub max_payload_size : ℕ
  pub dec_ctx : DecryptContext x

module _ {x : Crates} where
  -- `LenDelimitedReader::new`.
  abbrev pub new : ℕ → LenDelimitedReader x
  new max_payload_size = record {
    read_buffer = [];
    read_len = 0;
    max_payload_size = max_payload_size;
    dec_ctx = DecryptContext.null;
  }

  pub put_buf : LenDelimitedReader x → Bytes → LenDelimitedReader x
  put_buf r buf = record r { read_buffer = r.read_buffer ++ buf }

  unfoldable pub mark_read : LenDelimitedReader x → LenDelimitedReader x
  mark_read r = record r { read_buffer = drop r.read_len r.read_buffer; read_len = 0 }

  -- `try_read_header` from the decrypted length on: the length is stored before it is checked.
  header_read : LenDelimitedReader x → Res x ℕ → Res x Bool × LenDelimitedReader x
  header_read r (err e) = (err e, r)
  header_read r (ok data_len) =
      if ltb r.max_payload_size data_len
      then (err payload_size_prohibitive, record r { read_len = data_len })
      else (
        ok (ltb 0 data_len),
        record r {
          read_len = data_len;
          read_buffer = drop (dec_encrypted_size_len r.dec_ctx) r.read_buffer;
        },
      )

  pub try_read_header : Codec x ℕ → LenDelimitedReader x → Res x Bool × LenDelimitedReader x
  unfolding header_read
  try_read_header u32 r =
      if ltb (length r.read_buffer) (dec_encrypted_size_len r.dec_ctx)
      then (ok false, r)
      else header_read r
          (decrypt u32 r.dec_ctx (take (dec_encrypted_size_len r.dec_ctx) r.read_buffer))

module _ {x : Crates} {T : Type 0} where
  -- `try_read` from the decrypted message on.
  unfoldable pub payload_read :
      LenDelimitedReader x → Res x T → Res x (Option T) × LenDelimitedReader x
  unfolding mark_read
  payload_read r (err e) = (err e, r)
  payload_read r (ok result) = (ok (some result), mark_read r)

  -- `try_read` below its first `if`.
  unfoldable pub read_payload :
      Codec x T → LenDelimitedReader x → Res x (Option T) × LenDelimitedReader x
  unfolding payload_read
  read_payload c r =
      if ltb (length r.read_buffer) r.read_len
      then (ok none, r)
      else payload_read r (decrypt c r.dec_ctx (take r.read_len r.read_buffer))

  -- `try_read` on the result of `try_read_header`.
  after_header :
      Codec x T → Res x Bool × LenDelimitedReader x → Res x (Option T) × LenDelimitedReader x
  after_header c (err e, r) = (err e, r)
  after_header c (ok false, r) = (ok none, r)
  after_header c (ok true, r) = read_payload c r

  unfoldable pub try_read :
      Codec x T → Codec x ℕ → LenDelimitedReader x → Res x (Option T) × LenDelimitedReader x
  unfolding after_header
  try_read c u32 r =
      if r.read_len == 0 then after_header c (try_read_header u32 r) else read_payload c r
