-- ===== src/Udp/Outbox/Safety.antt =====
-- No round of the sending loop of src/udp.rs panics, whatever the socket answers, and messages are
-- only taken from the front of the queue.
use socket_collection.Base.{
  ℕ, refl, List, [], Bool, true, false, Option, none, some, Result, ok, err,
}
use socket_collection.Base.Loop.{loop, loop-Safe, Safe, Safe-mono, Keeps}
use socket_collection.Env.{Crates}
use socket_collection.Error.{IoError, Res}
use socket_collection.OutQueue.Order.{Entry}
use socket_collection.OutQueue.Refinement.{IsWellFormed, queued}
use socket_collection.OutQueue.Taken.{Leaves, take_or_next-Leaves}
use socket_collection.Udp.Outbox.{Outbox, after_send, send_round, flush_round}

module _ {x : Crates} {Sock M : Type 0} where
  -- The queue is still well-formed when the loop returns.
  abbrev pub LeavesOrderly : Res x Bool × Outbox x Sock M → Type 0
  LeavesOrderly r = IsWellFormed r.1.out_queue

  module _ (l : List (Entry M)) where
    -- Of a queue that held these entries, the first ones are gone.
    abbrev IsOrderly : Outbox x Sock M → Type 0
    IsOrderly s = IsWellFormed s.out_queue × Leaves l (queued s.out_queue)

    abbrev pub LeavesRest : Res x Bool × Outbox x Sock M → Type 0
    LeavesRest r = IsOrderly r.1

    after_send-Keeps :
        (s : Outbox x Sock M) (r : Res x Bool × Option M)
        → IsOrderly s
        → Keeps IsOrderly LeavesRest (after_send s r)
    unfolding after_send
    after_send-Keeps s (ok true, msg) w = w
    after_send-Keeps s (ok false, msg) w = w
    after_send-Keeps s (err e, msg) w = w

    module _ (send : Sock → M → Result IoError ℕ × Sock) (len : M → ℕ) where
      send_round-Keeps :
          (o : Option M) (s : Outbox x Sock M)
          → IsOrderly s
          → Keeps IsOrderly LeavesRest (send_round send len (o, s))
      unfolding send_round
      send_round-Keeps none s w = w
      send_round-Keeps (some msg) s w =
          after_send-Keeps (record s { sock = (send s.sock msg).1 }) _ w

      flush_round-Safe :
          (s : Outbox x Sock M)
          → IsOrderly s
          → Safe (Keeps IsOrderly LeavesRest) (flush_round send len s)
      unfolding flush_round
      flush_round-Safe s (w, g) =
          let (r, e, w', g') = take_or_next-Leaves l s.current_write s.out_queue w g in
          rw e (send_round-Keeps r.0 (record s { current_write = none; out_queue = r.1 }) (w', g'))

      loop-IsOrderly :
          (fuel : ℕ) (s : Outbox x Sock M)
          → IsOrderly s
          → Safe LeavesRest (loop fuel (flush_round send len) s)
      loop-IsOrderly fuel s w =
          loop-Safe IsOrderly LeavesRest (flush_round send len) flush_round-Safe fuel s w

module _ {x : Crates} {Sock M : Type 0} (send : Sock → M → Result IoError ℕ × Sock)
    (len : M → ℕ) where
  pub loop-LeavesRest :
      (fuel : ℕ) (s : Outbox x Sock M)
      → IsWellFormed s.out_queue
      → Safe (LeavesRest (queued s.out_queue)) (loop fuel (flush_round send len) s)
  loop-LeavesRest fuel s w = loop-IsOrderly (queued s.out_queue) send len fuel s (w, ([], refl))

  pub loop-LeavesOrderly :
      (fuel : ℕ) (s : Outbox x Sock M)
      → IsWellFormed s.out_queue
      → Safe LeavesOrderly (loop fuel (flush_round send len) s)
  loop-LeavesOrderly fuel s w =
      Safe-mono (LeavesRest (queued s.out_queue)) LeavesOrderly _ (λ r h. h.0)
        (loop-LeavesRest fuel s w)
