-- ===== src/Tcp/Inner/Leaves.antt =====
-- `flush_write_until_would_block` of src/tcp.rs does not panic, whatever the stream answers, and
-- only takes messages from the front of the queue.
use socket_collection.Base.{ℕ, refl, List, [], Option, none, some, Bool, arith}
use socket_collection.Base.Loop.{Safe, Keeps, loop-Safe}
use socket_collection.Env.{Crates, Bytes}
use socket_collection.Error.{Res}
use socket_collection.OutQueue.Order.{Entry}
use socket_collection.OutQueue.Refinement.{IsWellFormed, queued}
use socket_collection.OutQueue.Taken.{Leaves, take_or_next-Leaves}
use socket_collection.Mio.{TcpApi}
use socket_collection.Tcp.Inner.{
  Inner, next_data, after_write, write_round, flush_round, flush_write_until_would_block,
}

module _ {x : Crates} {api : TcpApi x} (l : List (Entry Bytes)) where
  -- Of a queue that held these entries, the first ones are gone.
  abbrev LeavesQueue : Inner api → Type 0
  LeavesQueue s = IsWellFormed s.out_queue × Leaves l (queued s.out_queue)

  abbrev pub LeavesAfter : Res x Bool × Inner api → Type 0
  LeavesAfter r = LeavesQueue r.1

  after_write-Leaves :
      (s : Inner api) (bytes : Bytes)
      → LeavesQueue s
      → Keeps LeavesQueue LeavesAfter (after_write s bytes (api.write s.stream bytes))
  unfolding after_write
  after_write-Leaves s bytes w = ground arith

  write_round-Leaves :
      (o : Option Bytes) (s : Inner api)
      → LeavesQueue s
      → Keeps LeavesQueue LeavesAfter (write_round (o, s))
  unfolding write_round
  write_round-Leaves none s w = w
  write_round-Leaves (some bytes) s w = after_write-Leaves s bytes w

  flush_round-Leaves :
      (s : Inner api) → LeavesQueue s → Safe (Keeps LeavesQueue LeavesAfter) (flush_round s)
  unfolding flush_round next_data
  flush_round-Leaves s (w, g) =
      let (r, e, w', g') = take_or_next-Leaves l s.current_write s.out_queue w g in
      rw e (write_round-Leaves r.0 (record s { current_write = none; out_queue = r.1 }) (w', g'))

  flush_from-Leaves :
      (fuel : ℕ) (s : Inner api)
      → LeavesQueue s
      → Safe LeavesAfter (flush_write_until_would_block fuel s)
  unfolding flush_write_until_would_block
  flush_from-Leaves fuel s w =
      loop-Safe LeavesQueue LeavesAfter flush_round flush_round-Leaves fuel s w

module _ {x : Crates} {api : TcpApi x} where
  pub flush-Leaves :
      (fuel : ℕ) (s : Inner api)
      → IsWellFormed s.out_queue
      → Safe (LeavesAfter (queued s.out_queue)) (flush_write_until_would_block fuel s)
  flush-Leaves fuel s w = flush_from-Leaves (queued s.out_queue) fuel s (w, ([], refl))
