-- ===== src/Udt/Inner/Write.antt =====
-- `write` of src/udt/udt_sock.rs: expired messages are dropped, the new one is queued, and as much
-- as the library takes is sent.
use socket_collection.Base.{
  ℕ, suc, ◌+◌, ◌≤◌, ◌<◌, ◌≡◌, refl, ◌∙◌, List, none, some, ok, err, Bool, length, done, arith,
}
use socket_collection.Env.{Crates, Bytes}
use socket_collection.Error.{Res, SocketError}
use socket_collection.Config.{Priority}
use socket_collection.OutQueue.{Instant, Clock, push_entry}
use socket_collection.OutQueue.Order.{Entry, IsOrdered, entries, insert_entry}
use socket_collection.OutQueue.Refinement.{push_entry-IsOrdered, entries-push_entry}
use socket_collection.OutQueue.Waiting.{current}
use socket_collection.OutQueue.Work.{work-insert_entry, work-append}
use socket_collection.Udt.Api.{UdtApi, Limits, ByteOrder, StreamCodec}
use socket_collection.Udt.Frame.{frame}
use socket_collection.Udt.Inner.{Inner, drop_expired, flush, write_message, write}
use socket_collection.Udt.Inner.Queue.{Drops, drop_expired-Drops}
use socket_collection.Udt.Inner.Flush.{SendLaws, work, Flushed, udt_flush-Flushed}

-- The state in which the sending loop starts, after `s` was given a message or none: the socket is
-- the same but for its queue.
pub record Starts {x : Crates} {api : UdtApi x} (s t : Inner api) (l : List (Entry Bytes))
    : Type 0 where
  pub queue : entries t.write_queue ≡ l
  pub current_write : t.current_write ≡ s.current_write
  pub stream : t.stream ≡ s.stream
  pub read_buffer : t.read_buffer ≡ s.read_buffer
  pub read_len : t.read_len ≡ s.read_len

module _ {x : Crates} {api : UdtApi x} {T : Type 0} (limits : Limits) (order : ByteOrder)
    (c : StreamCodec x T) where
  pub write-nothing :
      (fuel : ℕ) (s : Inner api) (net : api.Net) (clock : Clock) (now : Instant)
      → write limits order c fuel s net clock now none
        ≡ flush fuel (drop_expired limits clock s).1 net
  unfolding write write_message
  write-nothing fuel s net clock now = refl

  pub write-enqueued :
      (fuel : ℕ) (s : Inner api) (net : api.Net) (clock : Clock) (now : Instant) (msg : T)
      → (priority : Priority) (bytes : Bytes) → frame order c msg ≡ ok bytes
      → write limits order c fuel s net clock now (some (msg, priority))
        ≡ flush fuel
            (record ((drop_expired limits clock s).1) {
              write_queue =
                  push_entry priority now bytes (drop_expired limits clock s).1.write_queue;
            })
            net
  unfolding write write_message
  write-enqueued fuel s net clock now msg priority bytes h = rw (h, write_message)

  -- Given a message that can be serialised, a library that keeps its contract, an ordered queue and
  -- enough fuel for all pending bytes and messages with the new one, `write` returns and does not
  -- panic. Before it sends, it only drops the end of the waiting messages, none of them below the
  -- drop priority and the first of them too old, and then puts the new frame behind those of the
  -- same or a lower priority number; the message that is being sent stays in front, and nothing
  -- else has changed. From there on it sends in order.
  pub udt_write-Flushed :
      (laws : SendLaws api) (fuel : ℕ) (s : Inner api) (net : api.Net) (clock : Clock)
      → (now : Instant) (msg : T) (priority : Priority) (bytes : Bytes)
      → frame order c msg ≡ ok bytes
      → IsOrdered 0 s.write_queue
      → suc (length bytes) + work s < fuel
      → (r : (Res x Bool × Inner api) × api.Net) × (kept : List (Entry Bytes)) × (dropped : List
          (Entry Bytes))
        × (t : Inner api) × (write limits order c fuel s net clock now (some (msg, priority))
            ≡ done r)
        × Drops limits s clock kept dropped
        × Starts s t
            (insert_entry (record { priority = priority; queued_at = now; msg = bytes }) kept)
        × Flushed laws t net r
  unfolding drop_expired
  udt_write-Flushed laws fuel s net clock now msg priority bytes h w enough =
      let (dropped, drops, count, w') = drop_expired-Drops limits s clock w in
      let d = (drop_expired limits clock s).1 in
      let new : Entry Bytes = record { priority = priority; queued_at = now; msg = bytes } in
      let t : Inner api = record d { write_queue = push_entry priority now bytes d.write_queue } in
      let pushed : entries t.write_queue ≡ insert_entry new (entries d.write_queue) =
        entries-push_entry 0 priority now bytes d.write_queue w' in
      let less : work t ≤ suc (length bytes) + work s =
        rw (pushed, drops.0)
          (work-insert_entry (current s.current_write) new (entries d.write_queue) dropped) in
      let (r, e, flushed) =
        udt_flush-Flushed laws fuel t net
          (push_entry-IsOrdered 0 priority now bytes d.write_queue (omega arith) w')
          (omega (arith, less)) in
      (
        r,
        entries d.write_queue,
        dropped,
        t,
        write-enqueued fuel s net clock now msg priority bytes h ∙ e,
        drops,
        record {
          queue = pushed;
          current_write = refl;
          stream = refl;
          read_buffer = refl;
          read_len = refl;
        },
        flushed,
      )

  -- With no message, a library that keeps its contract, an ordered queue and enough fuel for what
  -- is pending, `write` drops expired messages in the same way and sends what is left.
  pub udt_write_nothing-Flushed :
      (laws : SendLaws api) (fuel : ℕ) (s : Inner api) (net : api.Net) (clock : Clock)
      → (now : Instant) → IsOrdered 0 s.write_queue
      → work s < fuel
      → (r : (Res x Bool × Inner api) × api.Net) × (kept : List (Entry Bytes)) × (dropped : List
          (Entry Bytes))
        × (t : Inner api) × (write limits order c fuel s net clock now none ≡ done r)
        × Drops limits s clock kept dropped
        × Starts s t kept
        × Flushed laws t net r
  unfolding drop_expired write write_message
  udt_write_nothing-Flushed laws fuel s net clock now w enough =
      let (dropped, drops, count, w') = drop_expired-Drops limits s clock w in
      let t = (drop_expired limits clock s).1 in
      let less : work t ≤ work s =
        rw (drops.0) (work-append (current s.current_write) (entries t.write_queue) dropped) in
      let (r, e, flushed) = udt_flush-Flushed laws fuel t net w' (omega (arith, less)) in
      (
        r,
        entries t.write_queue,
        dropped,
        t,
        e,
        drops,
        record {
          queue = refl;
          current_write = refl;
          stream = refl;
          read_buffer = refl;
          read_len = refl;
        },
        flushed,
      )

  -- A message that cannot be serialised is refused with that error; expired messages have been
  -- dropped, and nothing else has changed.
  pub udt_write-err :
      (fuel : ℕ) (s : Inner api) (net : api.Net) (clock : Clock) (now : Instant) (msg : T)
      → (priority : Priority) (e : SocketError x) → frame order c msg ≡ err e
      → write limits order c fuel s net clock now (some (msg, priority))
        ≡ done ((err e, (drop_expired limits clock s).1), net)
  unfolding write write_message
  udt_write-err fuel s net clock now msg priority e h = rw (h, write_message)
