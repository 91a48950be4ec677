-- ===== src/OutQueue.antt =====
-- src/out_queue.rs: the outgoing queue, a `BTreeMap<Priority, VecDeque<(Instant, T)>>` kept as an
-- association list in ascending order of the keys. An `Instant` is a number of nanoseconds, and a
-- `Clock` gives the instant that is read while the queue of a priority is examined.
pub mod Order
pub mod Refinement
pub mod Expiry
pub mod Waiting
pub mod Cut
pub mod Work
pub mod Fates
pub mod Ledger
pub mod Taken
use socket_collection.Base.{
  ℕ, ◌+◌, ◌-◌, ◌/◌, Bool, true, ◌||◌, List, [], ◌∷◌, ◌++◌, map, Option, none, some, length,
  is_empty, ltb, leb, ◌==◌, if◌then◌else◌, Run, done, panic, ◌>>=◌,
}
use socket_collection.Env.{Crates}
use socket_collection.Config.{SocketConfig, Priority}

abbrev pub Instant : Type 0
Instant = ℕ

abbrev pub Clock : Type 0
Clock = Priority → Instant

-- `timestamp.elapsed().as_secs()`.
abbrev pub elapsed_secs : Instant → Instant → ℕ
elapsed_secs now timestamp = (now - timestamp) / 1_000_000_000

module _ {ℓ} where
  -- A `VecDeque<(Instant, T)>`, front first.
  abbrev pub Deque : Type ℓ → Type ℓ
  Deque A = List (Instant × A)

  abbrev pub Queues : Type ℓ → Type ℓ
  Queues A = List (Priority × Deque A)

  pub record OutQueue (x : Crates) (A : Type ℓ) : Type ℓ where
    pub inner : Queues A
    pub conf : SocketConfig x

  -- `OutQueue::new`.
  pub new : {x : Crates} {A : Type ℓ} → SocketConfig x → OutQueue x A
  new conf = record { inner = []; conf = conf }

module _ {ℓ} {A : Type ℓ} where
  -- `entry(priority).or_insert_with(..)` of the map, and `push_back` on what it gives.
  unfoldable pub push_entry : Priority → Instant → A → Queues A → Queues A
  push_entry priority when msg [] = (priority, (when, msg) ∷ []) ∷ []
  push_entry priority when msg ((key, queue) ∷ rest) =
      if key == priority
      then (key, queue ++ ((when, msg) ∷ [])) ∷ rest
      else if ltb priority key
      then (priority, (when, msg) ∷ []) ∷ (key, queue) ∷ rest
      else (key, queue) ∷ push_entry priority when msg rest

  -- `BTreeMap::remove`: the value that was there, and the map without it.
  unfoldable pub remove : Priority → Queues A → Option (Deque A) × Queues A
  remove priority [] = (none, [])
  remove priority ((key, queue) ∷ rest) =
      let removed = remove priority rest in
      if key == priority then (some queue, rest) else (removed.0, (key, queue) ∷ removed.1)

  -- `Iterator::skip_while` over the map.
  unfoldable pub skip_while : (Priority → Deque A → Bool) → Queues A → Queues A
  skip_while p [] = []
  skip_while p ((key, queue) ∷ rest) =
      if p key queue then skip_while p rest else (key, queue) ∷ rest

  -- The length of a queue that `remove` returned; nothing was there for `none`.
  abbrev pub removed_len : Option (Deque A) → ℕ
  removed_len none = 0
  removed_len (some queue) = length queue

  -- `expired_keys.iter().filter_map(|p| self.inner.remove(p)).map(|q| q.len()).sum()`.
  unfoldable pub remove_all : List Priority → Queues A → ℕ × Queues A
  remove_all [] queues = (0, queues)
  remove_all (key ∷ keys) queues =
      let (removed, rest) = remove key queues in
      let (dropped, left) = remove_all keys rest in (removed_len removed + dropped, left)

module _ {ℓ} {x : Crates} {A : Type ℓ} where
  -- `queue.front().map_or(true, |(timestamp, _)| timestamp.elapsed() <= max_msg_age_secs)`.
  pub is_front_fresh : SocketConfig x → Instant → Deque A → Bool
  is_front_fresh conf now [] = true
  is_front_fresh conf now ((timestamp, _) ∷ _) =
      leb (elapsed_secs now timestamp) conf.max_msg_age_secs

  pub is_queue_valid : SocketConfig x → Clock → Priority → Deque A → Bool
  is_queue_valid conf clock priority queue =
      ltb priority conf.msg_drop_priority || is_front_fresh conf (clock priority) queue

  -- The instant is `Instant::now()` in `push`, and a test's choice otherwise.
  unfoldable pub push_at : OutQueue x A → Instant → A → Priority → OutQueue x A
  push_at q when msg priority = record q { inner = push_entry priority when msg q.inner }

  -- `push`; the instant is that of the call.
  abbrev pub push : OutQueue x A → Instant → A → Priority → OutQueue x A
  push q now msg priority = push_at q now msg priority

  unfoldable pub expired_queues : Clock → OutQueue x A → List Priority
  expired_queues clock q = map (λ e. e.0) (skip_while (is_queue_valid q.conf clock) q.inner)

  unfoldable pub drop_expired : Clock → OutQueue x A → ℕ × OutQueue x A
  drop_expired clock q =
      let (dropped_msgs, left) = remove_all (expired_queues clock q) q.inner in
      (dropped_msgs, record q { inner = left })

module _ {ℓ} {A : Type ℓ} where
  -- The body of `next_msg`; `pop_front` of an empty queue is the panic of `unwrap!`.
  unfoldable pub pop_first : Queues A → Run (Option A × Queues A)
  pop_first [] = done (none, [])
  pop_first ((key, []) ∷ rest) = panic
  pop_first ((key, (_, msg) ∷ queue) ∷ rest) =
      let left = (key, queue) ∷ rest in
      done (some msg, if is_empty queue then (remove key left).1 else left)

module _ {ℓ} {x : Crates} {A : Type ℓ} where
  unfoldable pub next_msg : OutQueue x A → Run (Option A × OutQueue x A)
  next_msg q = do (msg, left) ← pop_first q.inner; done (msg, record q { inner = left })

  -- `current_write.take().or_else(|| out_queue.next_msg())` of the sockets.
  unfoldable pub take_or_next : Option A → OutQueue x A → Run (Option A × OutQueue x A)
  take_or_next (some msg) q = done (some msg, q)
  take_or_next none q = next_msg q
