-- ===== src/Tests/Queue.antt =====
-- Witnesses for src/out_queue.rs.
use socket_collection.Base.{ℕ, ◌≡◌, List, [], ◌∷◌, ◌++◌, Option, length, All, done, arith, ◌*◌, ◌≤◌}
use socket_collection.Config.{default_config}
use socket_collection.OutQueue.{OutQueue, push_at, next_msg, drop_expired}
use socket_collection.OutQueue.Order.{Entry, insert_entry, pop_entry}
use socket_collection.OutQueue.Refinement.{IsWellFormed, queued, queued-push_at, next_msg-queued}
use socket_collection.OutQueue.Expiry.{IsKept, StartsStale, drop_expired-queued}
use socket_collection.Tests.World.{crates}

-- Two messages of priority 1 and one of priority 3.
abbrev pub queue : OutQueue crates ℕ
queue = record {
  inner = (1, (0, 10) ∷ (5, 11) ∷ []) ∷ (3, (2, 30) ∷ []) ∷ [];
  conf = default_config crates;
}

queued-push_at_example :
    IsWellFormed (push_at queue 9 12 1)
    × (queued (push_at queue 9 12 1)
        ≡ insert_entry (record { priority = 1; queued_at = 9; msg = 12 }) (queued queue))
    × ((push_at queue 9 12 1).conf ≡ queue.conf)
queued-push_at_example = queued-push_at queue 9 12 1 (omega arith)

next_msg-queued_example :
    (r : Option ℕ × OutQueue crates ℕ) × (next_msg queue ≡ done r)
    × IsWellFormed r.1
    × (◌≡◌ {A = Option ℕ × List (Entry ℕ)} (r.0, queued r.1) (pop_entry (queued queue)))
    × (r.1.conf ≡ queue.conf)
next_msg-queued_example = next_msg-queued queue (omega arith)

-- A hundred seconds later the message of priority 3 is too old.
drop_expired-queued_example :
    let left = drop_expired (λ _. 100 * 1_000_000_000) queue in
    (dropped : List (Entry ℕ)) × (queued queue ≡ queued left.1 ++ dropped)
    × (left.0 ≡ length dropped)
    × IsWellFormed left.1
    × (left.1.conf ≡ queue.conf)
    × All (λ e. queue.conf.msg_drop_priority ≤ e.priority) dropped
    × StartsStale queue.conf (λ _. 100 * 1_000_000_000) dropped
    × All (IsKept queue.conf (λ _. 100 * 1_000_000_000)) left.1.inner
drop_expired-queued_example = drop_expired-queued queue (λ _. 100 * 1_000_000_000) (omega arith)
