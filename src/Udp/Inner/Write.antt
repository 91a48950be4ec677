-- ===== src/Udp/Inner/Write.antt =====
-- `write` and `write_to` of src/udp.rs: expired messages are dropped, the new one is queued, and as
-- many as the socket takes are sent.
use socket_collection.Base.{
  bind-done, done-injective, ℕ, suc, ◌≤◌, ◌<◌, ◌≡◌, refl, ap, ◌∙◌, List, [], ◌∷◌, ◌++◌, none, some,
  ok, err, Bool, length, length-append, map-append, done, arith, All,
}
use socket_collection.Base.Loop.{loop}
use socket_collection.Env.{Crates, Codec, Bytes}
use socket_collection.Error.{Res, SocketError}
use socket_collection.Crypto.{encrypt}
use socket_collection.Config.{Priority}
use socket_collection.OutQueue.{OutQueue, Instant, Clock, push_at, drop_expired}
use socket_collection.OutQueue.Order.{Entry, insert_entry}
use socket_collection.OutQueue.Refinement.{IsWellFormed, queued, queued-push_at}
use socket_collection.OutQueue.Waiting.{current, messages, waiting}
use socket_collection.OutQueue.Expiry.{StartsStale, drop_expired-queued}
use socket_collection.Mio.{UdpApi}
use socket_collection.Udp.Outbox.{Outbox, flush_round}
use socket_collection.Udp.Outbox.Flush.{SendLaws, Flushed, work, loop-Flushed}
use socket_collection.Udp.Inner.{
  Inner, outbox, outbox_2, with_outbox, with_outbox_2, send_pair, pair_len,
  flush_write_until_would_block, flush_write_to_until_would_block, write_message, write_message_to,
  write, write_to,
}

module _ {M : Type 0} where
  length-insert_entry :
      (e : Entry M) (l : List (Entry M))
      → length (messages (insert_entry e l)) ≡ suc (length (messages l))
  length-insert_entry e [] = refl
  length-insert_entry e (f ∷ l) = ground (arith, length-insert_entry e l)

  -- Pushing adds one to the backlog at most, also if nothing was dropped before.
  backlog-insert_entry :
      (cur : List M) (e : Entry M) (kept dropped : List (Entry M))
      → length (cur ++ messages (insert_entry e kept))
        ≤ suc (length (cur ++ messages (kept ++ dropped)))
  backlog-insert_entry cur e kept dropped = omega (
    arith,
    length-insert_entry e kept,
    ap length (map-append (λ (t : Entry M). t.msg) kept dropped),
    length-append cur (messages (insert_entry e kept)),
    length-append cur (messages (kept ++ dropped)),
    length-append (messages kept) (messages dropped),
  )

-- What `drop_expired` may take out of a queue of the configuration.
abbrev pub Drops :
    {x : Crates} {M : Type 0} → OutQueue x M → Clock → List (Entry M) → List (Entry M) → Type 0
Drops q clock kept dropped =
    (queued q ≡ kept ++ dropped)
    × All (λ e. q.conf.msg_drop_priority ≤ e.priority) dropped
    × StartsStale q.conf clock dropped

-- What the flush returns is what its loop returned, put back into the socket.
pub flush-done :
    {x : Crates} {api : UdpApi x} (fuel : ℕ) (s : Inner api) (r : Res x Bool × Inner api)
    → flush_write_until_would_block fuel s ≡ done r
    → (o : Res x Bool × Outbox x api.Sock Bytes) × (loop fuel
          (flush_round api.send length)
          (outbox s)
        ≡ done o)
      × (with_outbox s o ≡ r)
unfolding flush_write_until_would_block
flush-done fuel s r h =
    let (o, looped, given) = bind-done _ _ r h in (o, looped, done-injective given)

module _ {x : Crates} {api : UdpApi x} {T : Type 0} (c : Codec x T) where
  pub write-enqueued :
      (fuel : ℕ) (s : Inner api) (nonce : x.Nonce) (clock : Clock) (now : Instant) (msg : T)
      → (priority : Priority) (bytes : Bytes) → encrypt c s.enc_ctx nonce msg ≡ ok bytes
      → write c fuel s nonce clock now (some (msg, priority))
        ≡ flush_write_until_would_block fuel
            (record s { out_queue = push_at (drop_expired clock s.out_queue).1 now bytes priority })
  unfolding write write_message
  write-enqueued fuel s nonce clock now msg priority bytes h = rw (h, write_message)

  pub write-none :
      (fuel : ℕ) (s : Inner api) (nonce : x.Nonce) (clock : Clock) (now : Instant)
      → write c fuel s nonce clock now none
        ≡ flush_write_until_would_block fuel
            (record s { out_queue = (drop_expired clock s.out_queue).1 })
  unfolding write write_message
  write-none fuel s nonce clock now = refl

  -- A message that cannot be encrypted is refused; expired messages have been dropped.
  pub write-err :
      (fuel : ℕ) (s : Inner api) (nonce : x.Nonce) (clock : Clock) (now : Instant) (msg : T)
      → (priority : Priority) (e : SocketError x) → encrypt c s.enc_ctx nonce msg ≡ err e
      → write c fuel s nonce clock now (some (msg, priority))
        ≡ done (err e, record s { out_queue = (drop_expired clock s.out_queue).1 })
  unfolding write write_message
  write-err fuel s nonce clock now msg priority e h = rw (h, write_message)

  write_to-enqueued :
      (fuel : ℕ) (s : Inner api) (nonce : x.Nonce) (clock : Clock) (now : Instant) (msg : T)
      → (peer : x.SocketAddr) (priority : Priority) (bytes : Bytes)
      → encrypt c s.enc_ctx nonce msg ≡ ok bytes
      → write_to c fuel s nonce clock now (some (msg, peer, priority))
        ≡ flush_write_to_until_would_block fuel (record s {
          out_queue2 = push_at (drop_expired clock s.out_queue2).1 now (bytes, peer) priority;
        })
  unfolding write_to write_message_to
  write_to-enqueued fuel s nonce clock now msg peer priority bytes h = rw (h, write_message_to)

  -- Given a message that can be encrypted, a socket that keeps its contract, a well-formed queue
  -- and enough fuel for all waiting datagrams with the new one, `write` returns and does not panic.
  -- Before it sends, it only drops the end of the waiting datagrams, none of them below the drop
  -- priority and the first of them too old, and then puts the new one behind those of the same or a
  -- lower priority number. From there on it sends in order.
  pub udp_write-Flushed :
      (laws : SendLaws api.send length) (fuel : ℕ) (s : Inner api) (nonce : x.Nonce) (clock : Clock)
      → (now : Instant) (msg : T) (priority : Priority) (bytes : Bytes)
      → encrypt c s.enc_ctx nonce msg ≡ ok bytes
      → IsWellFormed s.out_queue
      → suc (work api.send length laws (outbox s)) < fuel
      → (r : Res x Bool × Outbox x api.Sock Bytes) × (kept : List (Entry Bytes)) × (dropped : List
          (Entry Bytes))
        × (t : Outbox x api.Sock Bytes) × (write c fuel s nonce clock now (some (msg, priority))
            ≡ done (with_outbox s r))
        × Drops s.out_queue clock kept dropped
        × (queued t.out_queue
            ≡ insert_entry (record { priority = priority; queued_at = now; msg = bytes }) kept)
        × (t.current_write ≡ s.current_write)
        × (t.sock ≡ s.sock)
        × Flushed api.send length laws t r
  unfolding flush_write_until_would_block
  udp_write-Flushed laws fuel s nonce clock now msg priority bytes h w enough =
      let (dropped, split, count, w', conf, droppable, stale, left) =
        drop_expired-queued s.out_queue clock w in
      let q = (drop_expired clock s.out_queue).1 in
      let (w'', pushed, conf') = queued-push_at q now bytes priority w' in
      let new : Entry Bytes = record { priority = priority; queued_at = now; msg = bytes } in
      let t : Outbox x api.Sock Bytes = record (outbox s) {
        out_queue = push_at q now bytes priority;
      } in
      let less : length (waiting s.current_write t.out_queue)
          ≤ suc (length (waiting s.current_write s.out_queue)) =
        rw (pushed, split)
          (backlog-insert_entry (current s.current_write) new (queued q) dropped) in
      let (r, e, flushed) = loop-Flushed api.send length laws fuel t w'' (omega (arith, less)) in
      (
        r,
        queued q,
        dropped,
        t,
        write-enqueued fuel s nonce clock now msg priority bytes h ∙ rw e,
        (split, droppable, stale),
        pushed,
        refl,
        refl,
        flushed,
      )

  -- Under the same conditions `write_to` does the same with its own queue, where each datagram
  -- keeps the address given.
  pub udp_write_to-Flushed :
      (laws : SendLaws (send_pair api) pair_len) (fuel : ℕ) (s : Inner api) (nonce : x.Nonce)
      → (clock : Clock) (now : Instant) (msg : T) (peer : x.SocketAddr) (priority : Priority)
      → (bytes : Bytes) → encrypt c s.enc_ctx nonce msg ≡ ok bytes
      → IsWellFormed s.out_queue2
      → suc (work (send_pair api) pair_len laws (outbox_2 s)) < fuel
      → (r : Res x Bool × Outbox x api.Sock (Bytes × x.SocketAddr)) × (kept : List
          (Entry (Bytes × x.SocketAddr)))
        × (dropped : List (Entry (Bytes × x.SocketAddr))) × (t : Outbox x api.Sock
            (Bytes × x.SocketAddr))
        × (write_to c fuel s nonce clock now (some (msg, peer, priority))
            ≡ done (with_outbox_2 s r))
        × Drops s.out_queue2 clock kept dropped
        × (queued t.out_queue
            ≡ insert_entry
                (record { priority = priority; queued_at = now; msg = (bytes, peer) })
                kept)
        × (t.current_write ≡ s.current_write_2)
        × (t.sock ≡ s.sock)
        × Flushed (send_pair api) pair_len laws t r
  unfolding flush_write_to_until_would_block
  udp_write_to-Flushed laws fuel s nonce clock now msg peer priority bytes h w enough =
      let (dropped, split, count, w', conf, droppable, stale, left) =
        drop_expired-queued s.out_queue2 clock w in
      let q = (drop_expired clock s.out_queue2).1 in
      let (w'', pushed, conf') = queued-push_at q now (bytes, peer) priority w' in
      let new : Entry (Bytes × x.SocketAddr) = record {
        priority = priority;
        queued_at = now;
        msg = (bytes, peer);
      } in
      let t : Outbox x api.Sock (Bytes × x.SocketAddr) = record (outbox_2 s) {
        out_queue = push_at q now (bytes, peer) priority;
      } in
      let less : length (waiting s.current_write_2 t.out_queue)
          ≤ suc (length (waiting s.current_write_2 s.out_queue2)) =
        rw (pushed, split)
          (backlog-insert_entry (current s.current_write_2) new (queued q) dropped) in
      let (r, e, flushed) =
        loop-Flushed (send_pair api) pair_len laws fuel t w'' (omega (arith, less)) in
      (
        r,
        queued q,
        dropped,
        t,
        write_to-enqueued fuel s nonce clock now msg peer priority bytes h ∙ rw e,
        (split, droppable, stale),
        pushed,
        refl,
        refl,
        flushed,
      )
