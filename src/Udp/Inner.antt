-- ===== src/Udp/Inner.antt =====
-- `Inner` of src/udp.rs: the socket with its two read buffers, its two queues, and its contexts.
pub mod Read
pub mod Write
pub mod Safety
pub mod Reach
use socket_collection.Base.{
  ℕ, ◌*◌, Bool, List, [], ◌∷◌, Option, none, some, Result, ok, err, length, Run, done, ◌>>=◌,
}
use socket_collection.Base.Loop.{loop}
use socket_collection.Env.{Crates, Codec, Bytes}
use socket_collection.Error.{IoError, Res}
use socket_collection.Crypto.{EncryptContext, DecryptContext, encrypt, decrypt}
use socket_collection.Config.{SocketConfig, Priority}
use socket_collection.OutQueue.{OutQueue, Instant, Clock, push, drop_expired}
use socket_collection.OutQueue
use socket_collection.Mio.{UdpApi}
use socket_collection.Udp.Handlers.{bytes_is_empty, pair_is_empty}
use socket_collection.Udp.Inbox.{Inbox, deliver, recv_round}
use socket_collection.Udp.Outbox.{Outbox, flush_round}

pub record Inner {x : Crates} (api : UdpApi x) : Type 0 where
  pub sock : api.Sock
  pub peer : Option x.SocketAddr
  pub read_buffer : List Bytes
  pub read_buffer_2 : List (Bytes × x.SocketAddr)
  pub out_queue : OutQueue x Bytes
  pub current_write : Option Bytes
  pub out_queue2 : OutQueue x (Bytes × x.SocketAddr)
  pub current_write_2 : Option (Bytes × x.SocketAddr)
  pub enc_ctx : EncryptContext x
  pub dec_ctx : DecryptContext x

-- `BUF_LEN`.
abbrev pub buf_len : ℕ
buf_len = 64 * 1024

-- `data.len()`, of a pair.
abbrev pub pair_len : {A : Type 0} → Bytes × A → ℕ
pair_len m = length m.0

module _ {x : Crates} where
  -- `self.sock.send_to(&data, &peer)`.
  abbrev pub send_pair :
      (api : UdpApi x) → api.Sock → Bytes × x.SocketAddr → Result IoError ℕ × api.Sock
  send_pair api sock (bytes, peer) = api.send_to sock bytes peer

  -- `self.sock.recv(&mut buffer)` and `self.sock.recv_from(&mut buffer)`.
  abbrev pub recv_bytes : (api : UdpApi x) → api.Sock → Result IoError Bytes × api.Sock
  recv_bytes api sock = api.recv sock buf_len

  abbrev pub recv_pair :
      (api : UdpApi x) → api.Sock → Result IoError (Bytes × x.SocketAddr) × api.Sock
  recv_pair api sock = api.recv_from sock buf_len

  -- `Ok((self.dec_ctx.decrypt(&buf)?, sender_addr))`.
  abbrev pub decrypt_pair :
      {T : Type 0} → Codec x T → DecryptContext x → Bytes × x.SocketAddr → Res x (T × x.SocketAddr)
  decrypt_pair c ctx (bytes, peer) = elim (decrypt c ctx bytes) [
    | ok v ↦ ok (v, peer)
    | err e ↦ err e
  ]

module _ {x : Crates} {api : UdpApi x} where
  -- `Inner::new`.
  abbrev pub new : api.Sock → SocketConfig x → Inner api
  new sock conf = record {
    sock = sock;
    peer = none;
    read_buffer = [];
    read_buffer_2 = [];
    out_queue = OutQueue.new conf;
    current_write = none;
    out_queue2 = OutQueue.new conf;
    current_write_2 = none;
    enc_ctx = conf.enc_ctx;
    dec_ctx = conf.dec_ctx;
  }

  abbrev pub set_encrypt_ctx : Inner api → EncryptContext x → Inner api
  set_encrypt_ctx s enc_ctx = record s { enc_ctx = enc_ctx }

  abbrev pub set_decrypt_ctx : Inner api → DecryptContext x → Inner api
  set_decrypt_ctx s dec_ctx = record s { dec_ctx = dec_ctx }

  -- What a sending loop left, put back into the socket.
  abbrev pub outbox : Inner api → Outbox x api.Sock Bytes
  outbox s = record { sock = s.sock; out_queue = s.out_queue; current_write = s.current_write }

  abbrev pub outbox_2 : Inner api → Outbox x api.Sock (Bytes × x.SocketAddr)
  outbox_2 s = record { sock = s.sock; out_queue = s.out_queue2; current_write = s.current_write_2 }

  abbrev pub with_outbox : Inner api → Res x Bool × Outbox x api.Sock Bytes → Res x Bool × Inner api
  with_outbox s (result, o) =
      (result, record s { sock = o.sock; out_queue = o.out_queue; current_write = o.current_write })

  abbrev pub with_outbox_2 :
      Inner api → Res x Bool × Outbox x api.Sock (Bytes × x.SocketAddr) → Res x Bool × Inner api
  with_outbox_2 s (result, o) = (
    result,
    record s { sock = o.sock; out_queue2 = o.out_queue; current_write_2 = o.current_write },
  )

  unfoldable pub flush_write_until_would_block : ℕ → Inner api → Run (Res x Bool × Inner api)
  flush_write_until_would_block fuel s = do
    r ← loop fuel (flush_round api.send length) (outbox s)
    done (with_outbox s r)

  pub flush_write_to_until_would_block : ℕ → Inner api → Run (Res x Bool × Inner api)
  flush_write_to_until_would_block fuel s = do
    r ← loop fuel (flush_round (send_pair api) pair_len) (outbox_2 s)
    done (with_outbox_2 s r)

module _ {x : Crates} {api : UdpApi x} {T : Type 0} (c : Codec x T) where
  abbrev pub with_inbox :
      Inner api → Res x (Option T) × Inbox api.Sock Bytes → Res x (Option T) × Inner api
  with_inbox s (result, (sock, buffer)) = (result, record s { sock = sock; read_buffer = buffer })

  abbrev pub with_inbox_2 :
      Inner api
      → Res x (Option (T × x.SocketAddr)) × Inbox api.Sock (Bytes × x.SocketAddr)
      → Res x (Option (T × x.SocketAddr)) × Inner api
  with_inbox_2 s (result, (sock, buffer)) =
      (result, record s { sock = sock; read_buffer_2 = buffer })

  read_from : ℕ → Inner api → List Bytes → Run (Res x (Option T) × Inner api)
  read_from fuel s [] = do
    r ← loop fuel (recv_round bytes_is_empty (decrypt c s.dec_ctx) (recv_bytes api)) (s.sock, [])
    done (with_inbox s r)
  read_from fuel s (bytes ∷ buffer) =
      done (deliver (decrypt c s.dec_ctx) (some bytes), record s { read_buffer = buffer })

  -- `Inner::read`.
  pub read : ℕ → Inner api → Run (Res x (Option T) × Inner api)
  unfolding read_from
  read fuel s = read_from fuel s s.read_buffer

  read_frm_from :
      ℕ
      → Inner api
      → List (Bytes × x.SocketAddr)
      → Run (Res x (Option (T × x.SocketAddr)) × Inner api)
  read_frm_from fuel s [] = do
    r ← loop fuel (recv_round pair_is_empty (decrypt_pair c s.dec_ctx) (recv_pair api)) (s.sock, [])
    done (with_inbox_2 s r)
  read_frm_from fuel s (pair ∷ buffer) =
      done (deliver (decrypt_pair c s.dec_ctx) (some pair), record s { read_buffer_2 = buffer })

  -- `Inner::read_frm`.
  pub read_frm : ℕ → Inner api → Run (Res x (Option (T × x.SocketAddr)) × Inner api)
  unfolding read_frm_from
  read_frm fuel s = read_frm_from fuel s s.read_buffer_2

  -- `write` after `drop_expired`.
  write_message :
      ℕ → Inner api → x.Nonce → Instant → Option (T × Priority) → Run (Res x Bool × Inner api)
  write_message fuel s nonce now none = flush_write_until_would_block fuel s
  write_message fuel s nonce now (some (msg, priority)) = elim (encrypt c s.enc_ctx nonce msg) [
    | ok bytes ↦
        flush_write_until_would_block fuel
          (record s { out_queue = push s.out_queue now bytes priority })
    | err e ↦ done (err e, s)
  ]

  -- `Inner::write`.
  pub write :
      ℕ
      → Inner api
      → x.Nonce
      → Clock
      → Instant
      → Option (T × Priority)
      → Run (Res x Bool × Inner api)
  unfolding write_message
  write fuel s nonce clock now msg =
      write_message fuel (record s { out_queue = (drop_expired clock s.out_queue).1 }) nonce now msg

  -- `write_to` after `drop_expired`.
  write_message_to :
      ℕ
      → Inner api
      → x.Nonce
      → Instant
      → Option (T × x.SocketAddr × Priority)
      → Run (Res x Bool × Inner api)
  write_message_to fuel s nonce now none = flush_write_to_until_would_block fuel s
  write_message_to fuel s nonce now (some (msg, peer, priority)) =
      elim (encrypt c s.enc_ctx nonce msg) [
        | ok bytes ↦
            flush_write_to_until_would_block fuel
              (record s { out_queue2 = push s.out_queue2 now (bytes, peer) priority })
        | err e ↦ done (err e, s)
      ]

  -- `Inner::write_to`.
  pub write_to :
      ℕ
      → Inner api
      → x.Nonce
      → Clock
      → Instant
      → Option (T × x.SocketAddr × Priority)
      → Run (Res x Bool × Inner api)
  unfolding write_message_to
  write_to fuel s nonce clock now msg =
      write_message_to fuel (record s { out_queue2 = (drop_expired clock s.out_queue2).1 }) nonce
        now msg

module _ {x : Crates} {api : UdpApi x} where
  -- A call of the `mio` socket through `Evented`.
  abbrev on_sock :
      Inner api → Result IoError (Unit {0}) × api.Sock → Result IoError (Unit {0}) × Inner api
  on_sock s (result, sock) = (result, record s { sock = sock })

  abbrev pub register : Inner api → api.Registration → Result IoError (Unit {0}) × Inner api
  register s r = on_sock s (api.register s.sock r)

  abbrev pub reregister : Inner api → api.Registration → Result IoError (Unit {0}) × Inner api
  reregister s r = on_sock s (api.reregister s.sock r)

  abbrev pub deregister : Inner api → api.Poll → Result IoError (Unit {0}) × Inner api
  deregister s poll = on_sock s (api.deregister s.sock poll)
