-- ===== src/Tcp/Inner.antt =====
-- `Inner` of src/tcp.rs: the stream with its reader and its outgoing messages.
pub mod Pending
pub mod Flush
pub mod Write
pub mod Leaves
pub mod Sent
pub mod Live
pub mod Polls
pub mod Receive
pub mod Safety
pub mod Reads
use socket_collection.Base.{
  ℕ, ◌+◌, ◌*◌, Bool, true, false, List, [], ◌∷◌, ◌++◌, Option, none, some, Result, ok, err, map_err,
  length, is_empty, drop, ltb, if◌then◌else◌, Run, done, ◌>>=◌,
}
use socket_collection.Base.Loop.{Flow, again, return, loop}
use socket_collection.Env.{Crates, Codec, Bytes}
use socket_collection.Error.{IoError, Res, io, zero_byte_read, is_retry}
use socket_collection.Crypto.{EncryptContext, DecryptContext}
use socket_collection.Config.{SocketConfig, Priority, default_config}
use socket_collection.OutQueue.{OutQueue, Instant, Clock, push, drop_expired, take_or_next}
use socket_collection.OutQueue
use socket_collection.Mio.{TcpApi}
use socket_collection.Tcp.Frame.{serialize_with_len}
use socket_collection.Tcp.Reader.{LenDelimitedReader, put_buf, try_read}
use socket_collection.Tcp.Reader

pub record Inner {x : Crates} (api : TcpApi x) : Type 0 where
  pub stream : api.Stream
  pub msg_reader : LenDelimitedReader x
  pub out_queue : OutQueue x Bytes
  pub current_write : Option Bytes
  pub enc_ctx : EncryptContext x

-- `[0; 64 * 1024]`.
abbrev pub buffer_len : ℕ
buffer_len = 64 * 1024

module _ {x : Crates} {api : TcpApi x} where
  -- `Inner::new_with_conf`.
  pub new_with_conf : api.Stream → SocketConfig x → Inner api
  new_with_conf stream conf = record {
    stream = stream;
    msg_reader = record (Reader.new conf.max_payload_size) { dec_ctx = conf.dec_ctx };
    enc_ctx = conf.enc_ctx;
    out_queue = OutQueue.new conf;
    current_write = none;
  }

  -- `Inner::new`.
  abbrev pub new : api.Stream → Inner api
  unfolding new_with_conf
  new stream = new_with_conf stream (default_config x)

  pub set_encrypt_ctx : Inner api → EncryptContext x → Inner api
  set_encrypt_ctx s enc_ctx = record s { enc_ctx = enc_ctx }

  pub set_decrypt_ctx : Inner api → DecryptContext x → Inner api
  set_decrypt_ctx s dec_ctx = record s { msg_reader = record (s.msg_reader) { dec_ctx = dec_ctx } }

  -- `self.current_write.take().or_else(|| self.out_queue.next_msg())`.
  unfoldable pub next_data : Inner api → Run (Option Bytes × Inner api)
  next_data s = do
    (taken, queue) ← take_or_next s.current_write s.out_queue
    done (taken, record s { current_write = none; out_queue = queue })

  -- What the loop of `flush_write_until_would_block` does with the result of `stream.write`.
  unfoldable pub after_write :
      Inner api → Bytes → Result IoError ℕ × api.Stream → Flow (Res x Bool × Inner api) (Inner api)
  after_write s bytes (ok bytes_txd, stream) =
      if ltb bytes_txd (length bytes)
      then again (record s { stream = stream; current_write = some (drop bytes_txd bytes) })
      else again (record s { stream = stream })
  after_write s bytes (err error, stream) =
      if is_retry error.kind
      then return (ok false, record s { stream = stream; current_write = some bytes })
      else return (err (io error), record s { stream = stream })

  -- One round of `flush_write_until_would_block`.
  unfoldable pub write_round : Option Bytes × Inner api → Flow (Res x Bool × Inner api) (Inner api)
  write_round (none, s) = return (ok true, s)
  write_round (some bytes, s) = after_write s bytes (api.write s.stream bytes)

  unfoldable pub flush_round : Inner api → Run (Flow (Res x Bool × Inner api) (Inner api))
  flush_round s = do taken ← next_data s; done (write_round taken)

  unfoldable pub flush_write_until_would_block : ℕ → Inner api → Run (Res x Bool × Inner api)
  flush_write_until_would_block fuel s = loop fuel flush_round s

module _ {x : Crates} {api : TcpApi x} {T : Type 0} (c : Codec x T) (u32 : Codec x ℕ) where
  -- `enqueue_data`: the instant is that of the call of `push`.
  pub enqueue_data :
      Inner api → x.Nonce × x.Nonce → Instant → Priority → T → Res x (Unit {0}) × Inner api
  enqueue_data s nonces now priority msg = elim (serialize_with_len c u32 s.enc_ctx nonces msg) [
    | ok buf ↦ (ok tt, record s { out_queue = push s.out_queue now buf priority })
    | err e ↦ (err e, s)
  ]

  -- `write` after `drop_expired`.
  flush_enqueued : ℕ → Res x (Unit {0}) × Inner api → Run (Res x Bool × Inner api)
  flush_enqueued fuel (ok _, s) = flush_write_until_would_block fuel s
  flush_enqueued fuel (err e, s) = done (err e, s)

  write_message :
      ℕ
      → Inner api
      → x.Nonce × x.Nonce
      → Instant
      → Option (T × Priority)
      → Run (Res x Bool × Inner api)
  unfolding flush_enqueued
  write_message fuel s nonces now none = flush_write_until_would_block fuel s
  write_message fuel s nonces now (some (msg, priority)) =
      flush_enqueued fuel (enqueue_data s nonces now priority msg)

  -- `Inner::write`; the clock is read in `drop_expired`, the instant in `push`.
  pub write :
      ℕ
      → Inner api
      → x.Nonce × x.Nonce
      → Clock
      → Instant
      → Option (T × Priority)
      → Run (Res x Bool × Inner api)
  unfolding write_message
  write fuel s nonces clock now msg =
      write_message fuel (record s { out_queue = (drop_expired clock s.out_queue).1 }) nonces now
        msg

  -- The reader's answer, put back into the stream.
  pub with_reader :
      Inner api → Res x (Option T) × LenDelimitedReader x → Res x (Option T) × Inner api
  with_reader s (result, reader) = (result, record s { msg_reader = reader })

  -- `return match self.msg_reader.try_read() { .. Ok(None) => e }` at the end of the stream.
  pub at_eof : Res x (Option T) × Inner api → Res x (Option T) × Inner api
  at_eof (ok none, s) = (err zero_byte_read, s)
  at_eof (ok (some v), s) = (ok (some v), s)
  at_eof (err e, s) = (err e, s)

  -- One round of the loop of `read`; the flag is `is_something_read`.
  after_read :
      Inner api × Bool
      → Result IoError Bytes × api.Stream
      → Flow (Res x (Option T) × Inner api) (Inner api × Bool)
  unfolding with_reader at_eof
  after_read (s, is_something_read) (ok bytes, stream) =
      let s' = record s { stream = stream } in
      if is_empty bytes
      then return (
          if is_something_read
          then at_eof (with_reader s' (try_read c u32 s'.msg_reader))
          else (err zero_byte_read, s'))
      else again (record s' { msg_reader = put_buf s'.msg_reader bytes }, true)
  after_read (s, is_something_read) (err error, stream) =
      let s' = record s { stream = stream } in
      return (
        if is_retry error.kind
        then if is_something_read
          then with_reader s' (try_read c u32 s'.msg_reader)
          else (ok none, s')
        else (err (io error), s'))

  pub read_round : Inner api × Bool → Run (Flow (Res x (Option T) × Inner api) (Inner api × Bool))
  unfolding after_read
  read_round s = done (after_read s (api.read s.0.stream buffer_len))

  -- `read` on the result of its first `try_read`.
  read_more : ℕ → Res x (Option T) × Inner api → Run (Res x (Option T) × Inner api)
  unfolding read_round
  read_more fuel (ok none, s) = loop fuel read_round (s, false)
  read_more fuel (ok (some message), s) = done (ok (some message), s)
  read_more fuel (err e, s) = done (err e, s)

  -- `Inner::read`.
  pub read : ℕ → Inner api → Run (Res x (Option T) × Inner api)
  unfolding read_more with_reader
  read fuel s = read_more fuel (with_reader s (try_read c u32 s.msg_reader))

module _ {x : Crates} {api : TcpApi x} where
  -- A call of the stream through `Evented`.
  abbrev on_stream :
      Inner api → Result IoError (Unit {0}) × api.Stream → Result IoError (Unit {0}) × Inner api
  on_stream s (result, stream) = (result, record s { stream = stream })

  abbrev pub register : Inner api → api.Registration → Result IoError (Unit {0}) × Inner api
  register s r = on_stream s (api.register s.stream r)

  abbrev pub reregister : Inner api → api.Registration → Result IoError (Unit {0}) × Inner api
  reregister s r = on_stream s (api.reregister s.stream r)

  abbrev pub deregister : Inner api → api.Poll → Result IoError (Unit {0}) × Inner api
  deregister s poll = on_stream s (api.deregister s.stream poll)

  -- `Drop for Inner`: the result is ignored.
  abbrev pub drop_inner : Inner api → api.Stream
  drop_inner s = (api.shutdown s.stream).1
