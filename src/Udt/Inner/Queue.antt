-- ===== src/Udt/Inner/Queue.antt =====
-- The queue of `Inner` in src/udt/udt_sock.rs: the code works on the map itself, where
-- src/out_queue.rs has a type for it.
use socket_collection.Base.{◌≤◌, ◌≡◌, refl, List, ◌++◌, Option, none, some, length, All, done}
use socket_collection.Env.{Crates, Bytes}
use socket_collection.OutQueue.{Clock, Queues, OutQueue, expired_queues}
use socket_collection.OutQueue
use socket_collection.OutQueue.Order.{Entry, IsOrdered, entries}
use socket_collection.OutQueue.Refinement.{pop_first-entries}
use socket_collection.OutQueue.Waiting.{current, messages, Takes, Takes-pop_entry}
use socket_collection.OutQueue.Expiry.{StartsStale, drop_expired-queued}
use socket_collection.Udt.Api.{UdtApi, Limits}
use socket_collection.Udt.Inner.{Inner, limits_conf, expired_keys, drop_expired, take_data}

-- The rest of the message that is being sent, then the waiting ones.
abbrev pub waiting : Option Bytes → Queues Bytes → List Bytes
waiting o queue = current o ++ messages (entries queue)

-- On an ordered map the first of what waits is taken, without a panic.
pub take_data-Takes :
    (o : Option Bytes) (queue : Queues Bytes)
    → IsOrdered 0 queue
    → (r : Option Bytes × Queues Bytes) × (take_data o queue ≡ done r)
      × Takes (waiting o queue) r.0 (messages (entries r.1))
      × IsOrdered 0 r.1
unfolding take_data
take_data-Takes (some bytes) queue o = ((some bytes, queue), refl, refl, o)
take_data-Takes none queue o =
    let (r, e, o', spec) = pop_first-entries 0 queue o in
    (r, e, Takes-pop_entry (entries queue) (entries r.1) r.0 spec, o')

module _ {x : Crates} {api : UdtApi x} (limits : Limits) where
  -- What may be dropped: the end of what waits, none of it below the drop priority, and the first
  -- of it too old.
  abbrev pub Drops : Inner api → Clock → List (Entry Bytes) → List (Entry Bytes) → Type 0
  Drops s clock kept dropped =
      (entries s.write_queue ≡ kept ++ dropped)
      × All (λ e. limits.msg_drop_priority ≤ e.priority) dropped
      × StartsStale (limits_conf x limits) clock dropped

  pub drop_expired-Drops :
      (s : Inner api) (clock : Clock)
      → IsOrdered 0 s.write_queue
      → let t = (drop_expired limits clock s).1 in
        (dropped : List (Entry Bytes)) × Drops s clock (entries t.write_queue) dropped
        × ((drop_expired limits clock s).0 ≡ length dropped)
        × IsOrdered 0 t.write_queue
  unfolding drop_expired expired_keys OutQueue.drop_expired expired_queues
  drop_expired-Drops s clock o =
      let q : OutQueue x Bytes = record { inner = s.write_queue; conf = limits_conf x limits } in
      let (dropped, split, count, o', conf, droppable, stale, left) =
        drop_expired-queued q clock o in
      (dropped, (split, droppable, stale), count, o')

  -- The map of the socket, as the queue of src/out_queue.rs.
  abbrev pub as_queue : Inner api → OutQueue x Bytes
  as_queue s = record { inner = s.write_queue; conf = limits_conf x limits }

  -- The socket does to its map what the queue does.
  pub drop_expired-as_queue :
      (s : Inner api) (clock : Clock)
      → (drop_expired limits clock s).1
        ≡ record s { write_queue = (OutQueue.drop_expired clock (as_queue s)).1.inner }
  unfolding drop_expired expired_keys OutQueue.drop_expired expired_queues
  drop_expired-as_queue s clock = refl
