-- ===== src/Tcp/Inner/Write.antt =====
-- `write` of `Inner` in src/tcp.rs: expired messages are dropped, the new one is queued, and as
-- much as the stream takes is sent.
use socket_collection.Base.{
  ℕ, suc, ◌+◌, ◌≤◌, ◌<◌, ◌≡◌, refl, ◌∙◌, List, ◌++◌, none, some, ok, err, Bool, length, done, arith,
  All,
}
use socket_collection.Env.{Crates, Codec, Bytes}
use socket_collection.Error.{Res, SocketError}
use socket_collection.Config.{Priority}
use socket_collection.OutQueue.{Instant, Clock, push_at, drop_expired}
use socket_collection.OutQueue.Order.{Entry, insert_entry}
use socket_collection.OutQueue.Refinement.{IsWellFormed, queued, queued-push_at}
use socket_collection.OutQueue.Waiting.{current}
use socket_collection.OutQueue.Work.{work-insert_entry, work-append}
use socket_collection.OutQueue.Expiry.{StartsStale, drop_expired-queued}
use socket_collection.Mio.{TcpApi}
use socket_collection.Tcp.Frame.{serialize_with_len}
use socket_collection.Tcp.Inner.{
  Inner, enqueue_data, flush_write_until_would_block, flush_enqueued, write_message, write,
}
use socket_collection.Tcp.Inner.Pending.{SendLaws, work}
use socket_collection.Tcp.Inner.Flush.{Flushed, flush-Flushed}

module _ {x : Crates} {api : TcpApi x} where
  -- The messages that survive `drop_expired`.
  abbrev pub Drops : Inner api → Clock → List (Entry Bytes) → List (Entry Bytes) → Type 0
  Drops s clock kept dropped =
      (queued s.out_queue ≡ kept ++ dropped)
      × All (λ e. s.out_queue.conf.msg_drop_priority ≤ e.priority) dropped
      × StartsStale s.out_queue.conf clock dropped

  pub work-drop_expired :
      (s : Inner api) (clock : Clock)
      → IsWellFormed s.out_queue
      → work (record s { out_queue = (drop_expired clock s.out_queue).1 }) ≤ work s
  work-drop_expired s clock w =
      let (dropped, split, count, w', conf, droppable, stale, left) =
        drop_expired-queued s.out_queue clock w in
      rw split
        (work-append (current s.current_write) (queued (drop_expired clock s.out_queue).1) dropped)

  pub work-push_at :
      (s : Inner api) (clock : Clock) (now : Instant) (priority : Priority) (frame : Bytes)
      → IsWellFormed s.out_queue
      → work
          (record s { out_queue = push_at (drop_expired clock s.out_queue).1 now frame priority })
        ≤ suc (length frame) + work s
  work-push_at s clock now priority frame w =
      let (dropped, split, count, w', conf, droppable, stale, left) =
        drop_expired-queued s.out_queue clock w in
      let q = (drop_expired clock s.out_queue).1 in
      let new : Entry Bytes = record { priority = priority; queued_at = now; msg = frame } in
      rw ((queued-push_at q now frame priority w').1, split)
        (work-insert_entry (current s.current_write) new (queued q) dropped)

module _ {x : Crates} {api : TcpApi x} {T : Type 0} (c : Codec x T) (u32 : Codec x ℕ)
    (laws : SendLaws api) where
  pub write-enqueued :
      (fuel : ℕ) (s : Inner api) (nonces : x.Nonce × x.Nonce) (clock : Clock) (now : Instant)
      → (msg : T) (priority : Priority) (frame : Bytes)
      → serialize_with_len c u32 s.enc_ctx nonces msg ≡ ok frame
      → write c u32 fuel s nonces clock now (some (msg, priority))
        ≡ flush_write_until_would_block fuel
            (record s { out_queue = push_at (drop_expired clock s.out_queue).1 now frame priority })
  unfolding write write_message enqueue_data flush_enqueued
  write-enqueued fuel s nonces clock now msg priority frame h = rw (h, enqueue_data)

  pub write-none :
      (fuel : ℕ) (s : Inner api) (nonces : x.Nonce × x.Nonce) (clock : Clock) (now : Instant)
      → write c u32 fuel s nonces clock now none
        ≡ flush_write_until_would_block fuel
            (record s { out_queue = (drop_expired clock s.out_queue).1 })
  unfolding write write_message
  write-none fuel s nonces clock now = refl

  -- Given a message that can be serialised, a stream that keeps its contract, a well-formed queue
  -- and enough fuel for all pending bytes and messages with the new one, `write` returns and does
  -- not panic. Before it sends, it only drops the end of the waiting messages, none of them below
  -- the drop priority and the first of them too old, and then puts the new frame behind those of
  -- the same or a lower priority number; the message that is being sent stays in front. From there
  -- on it flushes.
  pub write-Flushed :
      (fuel : ℕ) (s : Inner api) (nonces : x.Nonce × x.Nonce) (clock : Clock) (now : Instant)
      → (msg : T) (priority : Priority) (frame : Bytes)
      → serialize_with_len c u32 s.enc_ctx nonces msg ≡ ok frame
      → IsWellFormed s.out_queue
      → suc (length frame) + work s < fuel
      → (r : Res x Bool × Inner api) × (kept : List (Entry Bytes)) × (dropped : List (Entry Bytes))
        × (t : Inner api) × (write c u32 fuel s nonces clock now (some (msg, priority)) ≡ done r)
        × Drops s clock kept dropped
        × (queued t.out_queue
            ≡ insert_entry (record { priority = priority; queued_at = now; msg = frame }) kept)
        × (t.current_write ≡ s.current_write)
        × (t.stream ≡ s.stream)
        × (t.msg_reader ≡ s.msg_reader)
        × Flushed laws t r
  write-Flushed fuel s nonces clock now msg priority frame h w enough =
      let (dropped, split, count, w', conf, droppable, stale, left) =
        drop_expired-queued s.out_queue clock w in
      let q = (drop_expired clock s.out_queue).1 in
      let (w'', pushed, conf') = queued-push_at q now frame priority w' in
      let t : Inner api = record s { out_queue = push_at q now frame priority } in
      let less = work-push_at s clock now priority frame w in
      let (r, e, flushed) = flush-Flushed laws fuel t w'' (omega (arith, less)) in
      (
        r,
        queued q,
        dropped,
        t,
        write-enqueued fuel s nonces clock now msg priority frame h ∙ e,
        (split, droppable, stale),
        pushed,
        refl,
        refl,
        refl,
        flushed,
      )

  -- With no message, a stream that keeps its contract, a well-formed queue and enough fuel for what
  -- is pending, `write` drops expired messages in the same way and flushes what is left.
  pub write_nothing-Flushed :
      (fuel : ℕ) (s : Inner api) (nonces : x.Nonce × x.Nonce) (clock : Clock) (now : Instant)
      → IsWellFormed s.out_queue
      → work s < fuel
      → (r : Res x Bool × Inner api) × (dropped : List (Entry Bytes)) × (t : Inner api) × (write c
            u32 fuel s nonces clock now none
          ≡ done r)
        × Drops s clock (queued t.out_queue) dropped
        × (t.current_write ≡ s.current_write)
        × (t.stream ≡ s.stream)
        × (t.msg_reader ≡ s.msg_reader)
        × Flushed laws t r
  unfolding write write_message
  write_nothing-Flushed fuel s nonces clock now w enough =
      let (dropped, split, count, w', conf, droppable, stale, left) =
        drop_expired-queued s.out_queue clock w in
      let t : Inner api = record s { out_queue = (drop_expired clock s.out_queue).1 } in
      let less = work-drop_expired s clock w in
      let (r, e, flushed) = flush-Flushed laws fuel t w' (omega (arith, less)) in
      (r, dropped, t, e, (split, droppable, stale), refl, refl, refl, flushed)

module _ {x : Crates} {api : TcpApi x} {T : Type 0} (c : Codec x T) (u32 : Codec x ℕ) where
  -- A message that cannot be serialised is refused with the error of the encryption; expired
  -- messages have been dropped, and nothing else has changed.
  pub write-err :
      (fuel : ℕ) (s : Inner api) (nonces : x.Nonce × x.Nonce) (clock : Clock) (now : Instant)
      → (msg : T) (priority : Priority) (e : SocketError x)
      → serialize_with_len c u32 s.enc_ctx nonces msg ≡ err e
      → write c u32 fuel s nonces clock now (some (msg, priority))
        ≡ done (err e, record s { out_queue = (drop_expired clock s.out_queue).1 })
  unfolding write write_message enqueue_data flush_enqueued
  write-err fuel s nonces clock now msg priority e h = rw (h, enqueue_data)
