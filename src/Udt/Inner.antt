-- ===== src/Udt/Inner.antt =====
-- `Inner` of src/udt/udt_sock.rs: a UDT stream with its buffers. The field `handle` is left out:
-- the operations that use it take what it refers to.
pub mod Buffer
pub mod Queue
pub mod Flush
pub mod Write
pub mod Receive
pub mod Reads
use socket_collection.Base.{
  ℕ, ◌*◌, Bool, true, false, List, [], ◌∷◌, ◌++◌, map, Option, none, some, Result, ok, err, map_err,
  length, take, drop, ltb, ◌==◌, if◌then◌else◌, Run, done, panic, ◌>>=◌,
}
use socket_collection.Base.Int.{ℤ, pos, negsuc}
use socket_collection.Base.Loop.{Flow, again, return, loop}
use socket_collection.Env.{Crates, Bytes}
use socket_collection.Error.{
  IoError, Res, io, serialisation, zero_byte_read, payload_size_prohibitive,
  udt_negative_bytes_read, udt_negative_bytes_write,
}
use socket_collection.Config.{SocketConfig, Priority, default_config}
use socket_collection.OutQueue.{
  Instant, Clock, Queues, push_entry, skip_while, remove_all, is_queue_valid, pop_first,
}
use socket_collection.Udt.Api.{UdtApi, Limits, ByteOrder, StreamCodec}
use socket_collection.Udt.Frame.{u32_size, frame}

pub record Inner {x : Crates} (api : UdtApi x) : Type 0 where
  pub stream : api.UdtSocket
  pub read_buffer : Bytes
  pub read_len : ℕ
  pub write_queue : Queues Bytes
  pub current_write : Option Bytes

-- `BUF_LEN`.
abbrev pub buf_len : ℕ
buf_len = 64 * 1024

module _ {x : Crates} {api : UdtApi x} {T : Type 0} (limits : Limits) (order : ByteOrder)
    (c : StreamCodec x T) where
  -- `read_from_buffer` from the length on: the length is stored before it is checked.
  pub length_read : Inner api → Result IoError ℕ → Res x (Unit {0}) × Inner api
  length_read s (err e) = (err (io e), s)
  length_read s (ok len) =
      if ltb limits.max_payload_size len
      then (err payload_size_prohibitive, record s { read_len = len })
      else (ok tt, record s { read_len = len; read_buffer = drop u32_size s.read_buffer })

  -- `read_from_buffer` on the result of `deserialise_from`.
  pub message_read : Inner api → Res x T → Res x (Option T) × Inner api
  message_read s (err e) = (err e, s)
  message_read s (ok result) =
      (ok (some result), record s { read_buffer = drop s.read_len s.read_buffer; read_len = 0 })

  -- `read_from_buffer` below its first `if`. The cursor is over the whole buffer.
  pub read_message : Inner api → Res x (Option T) × Inner api
  unfolding message_read
  read_message s =
      if ltb (length s.read_buffer) s.read_len
      then (ok none, s)
      else message_read s (map_err serialisation (c.deserialise_from s.read_buffer))

  after_length : Res x (Unit {0}) × Inner api → Res x (Option T) × Inner api
  unfolding read_message
  after_length (err e, s) = (err e, s)
  after_length (ok u, s) = read_message s

  pub read_from_buffer : Inner api → Res x (Option T) × Inner api
  unfolding after_length length_read
  read_from_buffer s =
      if s.read_len == 0
      then if ltb (length s.read_buffer) u32_size
        then (ok none, s)
        else after_length (length_read s (order.get_u32 s.read_buffer))
      else read_message s

  -- `return match self.read_from_buffer() { .. Ok(None) => e }` at the end of the stream.
  pub at_eof : Res x (Option T) × Inner api → Res x (Option T) × Inner api
  at_eof (ok none, s) = (err zero_byte_read, s)
  at_eof (ok (some v), s) = (ok (some v), s)
  at_eof (err e, s) = (err e, s)

  -- The `Ok` branch of the loop of `read`, from the test of zero on. A number of bytes past the end
  -- of the buffer is the panic of `&buffer[0..bytes_rxd]`.
  bytes_read :
      Inner api × Bool → ℕ → Bytes → Run (Flow (Res x (Option T) × Inner api) (Inner api × Bool))
  unfolding at_eof
  bytes_read (s, is_something_read) bytes_rxd buffer =
      if bytes_rxd == 0
      then done (
          return
            (if is_something_read then at_eof (read_from_buffer s) else (err zero_byte_read, s)))
      else if ltb (length buffer) bytes_rxd
      then panic
      else done (again (record s { read_buffer = s.read_buffer ++ take bytes_rxd buffer }, true))

  -- The loop's body on what `recv` answers.
  after_recv :
      Inner api × Bool
      → Result api.Failure ℤ
      → Bytes
      → Run (Flow (Res x (Option T) × Inner api) (Inner api × Bool))
  unfolding bytes_read
  after_recv state (ok (negsuc n)) buffer =
      done (return (err (udt_negative_bytes_read (negsuc n)), state.0))
  after_recv state (ok (pos n)) buffer = bytes_read state n buffer
  after_recv (s, is_something_read) (err error) buffer = done (
      return (
        if api.is_easyncrcv error
        then if is_something_read then read_from_buffer s else (ok none, s)
        else (err (api.into_socket_error error), s)))

  read_round :
      (Inner api × Bool) × api.Net
      → Run (Flow ((Res x (Option T) × Inner api) × api.Net) ((Inner api × Bool) × api.Net))
  unfolding after_recv
  read_round ((s, is_something_read), net) = do
    let (result, buffer, net') = api.recv s.stream buf_len net
    flow ← after_recv (s, is_something_read) result buffer
    done (elim flow [ again state ↦ again (state, net') | return r ↦ return (r, net') ])

  -- `read` on the result of its first `read_from_buffer`.
  read_more :
      ℕ → api.Net → Res x (Option T) × Inner api → Run ((Res x (Option T) × Inner api) × api.Net)
  read_more fuel net (ok none, s) = loop fuel read_round ((s, false), net)
  read_more fuel net (ok (some message), s) = done ((ok (some message), s), net)
  read_more fuel net (err e, s) = done ((err e, s), net)

  -- `Inner::read`.
  pub read : ℕ → Inner api → api.Net → Run ((Res x (Option T) × Inner api) × api.Net)
  unfolding read_more
  read fuel s net = read_more fuel net (read_from_buffer s)

-- The constants, as the configuration that the functions of the queue take.
abbrev pub limits_conf : (x : Crates) → Limits → SocketConfig x
limits_conf x limits = record (default_config x) {
  max_payload_size = limits.max_payload_size;
  msg_drop_priority = limits.msg_drop_priority;
  max_msg_age_secs = limits.max_msg_age_secs;
}

module _ {x : Crates} {api : UdtApi x} (limits : Limits) where
  -- `expired_keys`; the closure is that of `is_queue_valid`.
  pub expired_keys : Clock → Inner api → List Priority
  expired_keys clock s =
      map (λ e. e.0) (skip_while (is_queue_valid (limits_conf x limits) clock) s.write_queue)

  -- `dropped_msgs`, and the queue without them.
  unfoldable pub drop_expired : Clock → Inner api → ℕ × Inner api
  unfolding expired_keys
  drop_expired clock s =
      let (dropped_msgs, left) = remove_all (expired_keys clock s) s.write_queue in
      (dropped_msgs, record s { write_queue = left })

-- `self.current_write.take()`, or else the first message of the queue.
unfoldable pub take_data : Option Bytes → Queues Bytes → Run (Option Bytes × Queues Bytes)
take_data (some bytes) queue = done (some bytes, queue)
take_data none queue = pop_first queue

module _ {x : Crates} {api : UdtApi x} where
  -- What the sending loop does with the answer of `send`.
  unfoldable pub after_send :
      Inner api → Bytes → Result api.Failure ℤ → Flow (Res x Bool × Inner api) (Inner api)
  after_send s bytes (ok (negsuc n)) = return (err (udt_negative_bytes_write (negsuc n)), s)
  after_send s bytes (ok (pos bytes_txd)) =
      if ltb bytes_txd (length bytes)
      then again (record s { current_write = some (drop bytes_txd bytes) })
      else again s
  after_send s bytes (err error) =
      if api.is_easyncsnd error
      then return (ok false, record s { current_write = some bytes })
      else return (err (api.into_socket_error error), s)

  unfoldable pub send_round :
      Option Bytes × Inner api
      → api.Net
      → Flow ((Res x Bool × Inner api) × api.Net) (Inner api × api.Net)
  unfolding after_send
  send_round (none, s) net = return ((ok true, s), net)
  send_round (some bytes, s) net =
      let (result, net') = api.send s.stream bytes net in
      elim (after_send s bytes result) [ again s' ↦ again (s', net') | return r ↦ return (r, net') ]

  unfoldable pub flush_round :
      Inner api × api.Net → Run (Flow ((Res x Bool × Inner api) × api.Net) (Inner api × api.Net))
  unfolding take_data send_round
  flush_round (s, net) = do
    (taken, queue) ← take_data s.current_write s.write_queue
    done (send_round (taken, record s { current_write = none; write_queue = queue }) net)

  -- The loop at the end of `write`.
  unfoldable pub flush : ℕ → Inner api → api.Net → Run ((Res x Bool × Inner api) × api.Net)
  flush fuel s net = loop fuel flush_round (s, net)

module _ {x : Crates} {api : UdtApi x} {T : Type 0} (limits : Limits) (order : ByteOrder)
    (c : StreamCodec x T) where
  -- `write` after expired messages are dropped; the instant is that of the push.
  write_message :
      ℕ
      → Inner api
      → api.Net
      → Instant
      → Option (T × Priority)
      → Run ((Res x Bool × Inner api) × api.Net)
  write_message fuel s net now none = flush fuel s net
  write_message fuel s net now (some (msg, priority)) = elim (frame order c msg) [
    | ok bytes ↦
        flush fuel (record s { write_queue = push_entry priority now bytes s.write_queue }) net
    | err e ↦ done ((err e, s), net)
  ]

  -- `Inner::write`.
  pub write :
      ℕ
      → Inner api
      → api.Net
      → Clock
      → Instant
      → Option (T × Priority)
      → Run ((Res x Bool × Inner api) × api.Net)
  unfolding write_message
  write fuel s net clock now msg = write_message fuel (drop_expired limits clock s).1 net now msg

module _ {x : Crates} {api : UdtApi x} where
  -- `Drop for Inner`: the result is only logged.
  abbrev pub drop_inner : Inner api → api.Net → api.Net
  drop_inner s net = (api.close s.stream net).1
