-- ===== src/Udp/Outbox.antt =====
-- The sending loop that `flush_write_until_would_block` and `flush_write_to_until_would_block` of
-- src/udp.rs share, over the socket, one `current_write` and one queue.
pub mod Flush
pub mod Safety
pub mod Moves
pub mod Account
use socket_collection.Base.{
  ℕ, Bool, true, false, Option, none, some, Result, ok, err, Run, done, ◌>>=◌,
}
use socket_collection.Base.Loop.{Flow, again, return}
use socket_collection.Env.{Crates}
use socket_collection.Error.{IoError, Res}
use socket_collection.OutQueue.{OutQueue, take_or_next}
use socket_collection.Udp.Handlers.{handle_send_res}

-- The fields of `Inner` that one sending loop uses.
pub record Outbox (x : Crates) (Sock M : Type 0) : Type 0 where
  pub sock : Sock
  pub out_queue : OutQueue x M
  pub current_write : Option M

module _ {x : Crates} {Sock M : Type 0} where
  -- `if !handle_send_res(..)? { return Ok(false); }`.
  unfoldable pub after_send :
      Outbox x Sock M
      → Res x Bool × Option M
      → Flow (Res x Bool × Outbox x Sock M) (Outbox x Sock M)
  after_send s (ok true, current_write) = again (record s { current_write = current_write })
  after_send s (ok false, current_write) =
      return (ok false, record s { current_write = current_write })
  after_send s (err error, current_write) =
      return (err error, record s { current_write = current_write })

  module _ (send : Sock → M → Result IoError ℕ × Sock) (len : M → ℕ) where
    -- The loop's body, after the next message was taken.
    unfoldable pub send_round :
        Option M × Outbox x Sock M → Flow (Res x Bool × Outbox x Sock M) (Outbox x Sock M)
    unfolding after_send
    send_round (none, s) = return (ok true, s)
    send_round (some msg, s) =
        let (result, sock) = send s.sock msg in
        after_send (record s { sock = sock }) (handle_send_res result s.current_write (len msg) msg)

    unfoldable pub flush_round :
        Outbox x Sock M → Run (Flow (Res x Bool × Outbox x Sock M) (Outbox x Sock M))
    unfolding send_round
    flush_round s = do
      (taken, queue) ← take_or_next s.current_write s.out_queue
      done (send_round (taken, record s { current_write = none; out_queue = queue }))
