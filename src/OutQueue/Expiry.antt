-- ===== src/OutQueue/Expiry.antt =====
-- `drop_expired` of src/out_queue.rs: what it drops and what stays.
use socket_collection.Base.{
  ℕ, suc, ◌≤◌, ◌<◌, ◌≡◌, refl, sym, ap, ◌∙◌, List, [], ◌∷◌, ◌++◌, map, length, All, ◌==◌,
  length-append, append_assoc, arith, inl, inr, Bool, true, false, Bool-cases, if◌then◌else◌, ◌⊎◌,
  ap,
}
use socket_collection.Env.{Crates}
use socket_collection.Config.{Priority, SocketConfig}
use socket_collection.OutQueue.{
  Clock, Deque, Queues, OutQueue, remove, skip_while, remove_all, is_front_fresh, is_queue_valid,
  expired_queues, drop_expired, elapsed_secs,
}
use socket_collection.OutQueue.Order.{
  Entry, IsOrdered, tagged, entries, IsOrdered-mono, entries-ge, length-tagged,
}
use socket_collection.OutQueue.Refinement.{IsWellFormed, queued}

module _ {ℓ} {A : Type ℓ} where
  abbrev keys : Queues A → List Priority
  keys = map (λ e. e.0)

  -- The queues in front of those that `skip_while` leaves.
  take_while : (Priority → Deque A → Bool) → Queues A → Queues A
  take_while p [] = []
  take_while p ((key, queue) ∷ rest) = if p key queue then (key, queue) ∷ take_while p rest else []

  skip_while-IsOrdered :
      (p : Priority → Deque A → Bool) (low : ℕ) (qs : Queues A)
      → IsOrdered low qs
      → IsOrdered low (skip_while p qs)
  unfolding skip_while
  skip_while-IsOrdered p low [] o = tt
  skip_while-IsOrdered p low ((k, q) ∷ qs) o = elim (Bool-cases (p k q)) [
    | inl fresh ↦
        rw (fresh, skip_while)
          (IsOrdered-mono low (suc k) (skip_while p qs) (omega arith)
            (skip_while-IsOrdered p (suc k) qs o.2))
    | inr stale ↦ rw (stale, skip_while) o
  ]

  take_while-IsOrdered :
      (p : Priority → Deque A → Bool) (low : ℕ) (qs : Queues A)
      → IsOrdered low qs
      → IsOrdered low (take_while p qs)
  unfolding take_while
  take_while-IsOrdered p low [] o = tt
  take_while-IsOrdered p low ((k, q) ∷ qs) o = ground (arith, take_while-IsOrdered p (suc k) qs)

  keys-ge : (low : ℕ) (qs : Queues A) → IsOrdered low qs → All (λ k. low ≤ k) (keys qs)
  keys-ge low [] o = tt
  keys-ge low ((k, q) ∷ qs) o =
      (o.0, keys-ge low qs (IsOrdered-mono low (suc k) qs (omega arith) o.2))

  entries-take-skip :
      (p : Priority → Deque A → Bool) (qs : Queues A)
      → entries qs ≡ entries (take_while p qs) ++ entries (skip_while p qs)
  unfolding take_while skip_while
  entries-take-skip p [] = refl
  entries-take-skip p ((k, q) ∷ qs) = elim (Bool-cases (p k q)) [
    | inl fresh ↦
        rw (fresh, take_while, skip_while)
          (ap (◌++◌ (tagged k q)) (entries-take-skip p qs)
            ∙ sym
                (append_assoc (tagged k q) (entries (take_while p qs)) (entries (skip_while p qs))))
    | inr stale ↦ rw (stale, take_while, skip_while)
  ]

  -- Removing higher keys leaves the first queue alone.
  remove_all-higher :
      (k : Priority) (q : Deque A) (qs : Queues A) (ks : List Priority)
      → All (λ j. suc k ≤ j) ks
      → remove_all ks ((k, q) ∷ qs) ≡ ((remove_all ks qs).0, (k, q) ∷ (remove_all ks qs).1)
  unfolding remove_all remove
  remove_all-higher k q qs [] h = refl
  remove_all-higher k q qs (j ∷ ks) h =
      let e : (k == j) ≡ false = ground arith in
      rw (e, remove_all-higher k q (remove j qs).1 ks h.1)

  -- Removing all keys leaves nothing, and counts every entry.
  remove_all-keys :
      (low : ℕ) (qs : Queues A)
      → IsOrdered low qs
      → remove_all (keys qs) qs ≡ (length (entries qs), [])
  unfolding remove_all remove
  remove_all-keys low [] o = refl
  remove_all-keys low ((k, q) ∷ qs) o =
      let e : (k == k) ≡ true = ground arith in
      rw (
        e,
        remove_all-keys (suc k) qs o.2,
        length-append (tagged k q) (entries qs),
        length-tagged k q,
      )

  remove_all-skip_while :
      (p : Priority → Deque A → Bool) (low : ℕ) (qs : Queues A)
      → IsOrdered low qs
      → remove_all (keys (skip_while p qs)) qs
        ≡ (length (entries (skip_while p qs)), take_while p qs)
  unfolding skip_while take_while remove_all
  remove_all-skip_while p low [] o = refl
  remove_all-skip_while p low ((k, q) ∷ qs) o = elim (Bool-cases (p k q)) [
    | inl fresh ↦ rw (
      fresh,
      skip_while,
      take_while,
      remove_all-higher k q qs (keys (skip_while p qs))
          (keys-ge (suc k) (skip_while p qs) (skip_while-IsOrdered p (suc k) qs o.2)),
      remove_all-skip_while p (suc k) qs o.2,
    )
    | inr stale ↦ rw (stale, skip_while, take_while, remove_all-keys low ((k, q) ∷ qs) o)
  ]

  skip-take_while :
      (p : Priority → Deque A → Bool) (qs : Queues A) → skip_while p (take_while p qs) ≡ []
  unfolding skip_while take_while
  skip-take_while p [] = refl
  skip-take_while p ((k, q) ∷ qs) = ground (arith, skip-take_while p qs)

  take-take_while :
      (p : Priority → Deque A → Bool) (qs : Queues A)
      → take_while p (take_while p qs) ≡ take_while p qs
  unfolding take_while
  take-take_while p [] = refl
  take-take_while p ((k, q) ∷ qs) = ground (arith, take-take_while p qs)

module _ {ℓ} {x : Crates} {A : Type ℓ} (conf : SocketConfig x) (clock : Clock) where
  -- A message that may be dropped and has waited too long.
  abbrev pub IsStale : Entry A → Type 0
  IsStale e =
      (conf.msg_drop_priority ≤ e.priority)
      × (conf.max_msg_age_secs < elapsed_secs (clock e.priority) e.queued_at)

  -- What may be dropped begins with a message that is stale.
  abbrev pub StartsStale : List (Entry A) → Type 0
  StartsStale [] = Unit {0}
  StartsStale (e ∷ l) = IsStale e

  -- The oldest message of a queue is fresh, or the queue is never dropped.
  abbrev pub IsKept : Priority × Deque A → Type 0
  IsKept (k, []) = Unit {0}
  IsKept (k, (t, m) ∷ q) =
      (k < conf.msg_drop_priority) ⊎ (elapsed_secs (clock k) t ≤ conf.max_msg_age_secs)

  take_while-IsKept : (qs : Queues A) → All IsKept (take_while (is_queue_valid conf clock) qs)
  unfolding take_while is_queue_valid is_front_fresh
  take_while-IsKept [] = tt
  take_while-IsKept ((k, []) ∷ qs) = ground (arith, take_while-IsKept qs)
  take_while-IsKept ((k, (t, m) ∷ q) ∷ qs) = ground (arith, take_while-IsKept qs)

  skip_while-StartsStale :
      (low : ℕ) (qs : Queues A)
      → IsOrdered low qs
      → StartsStale (entries (skip_while (is_queue_valid conf clock) qs))
  unfolding skip_while is_queue_valid is_front_fresh
  skip_while-StartsStale low [] o = tt
  skip_while-StartsStale low ((k, []) ∷ qs) o = absurd (omega arith)
  skip_while-StartsStale low ((k, (t, m) ∷ q) ∷ qs) o =
      ground (arith, skip_while-StartsStale (suc k) qs)

  invalid-droppable :
      (k : Priority) (q : Deque A)
      → is_queue_valid conf clock k q ≡ false
      → conf.msg_drop_priority ≤ k
  unfolding is_queue_valid is_front_fresh
  invalid-droppable k [] h = ground arith
  invalid-droppable k ((t, m) ∷ q) h = ground arith

  skip_while-droppable :
      (low : ℕ) (qs : Queues A)
      → IsOrdered low qs
      → All
          (λ e. conf.msg_drop_priority ≤ e.priority)
          (entries (skip_while (is_queue_valid conf clock) qs))
  unfolding skip_while
  skip_while-droppable low [] o = tt
  skip_while-droppable low ((k, q) ∷ qs) o = elim (Bool-cases (is_queue_valid conf clock k q)) [
    | inl valid ↦ rw (valid, skip_while) (skip_while-droppable (suc k) qs o.2)
    | inr expired ↦
        rw (expired, skip_while)
          (entries-ge conf.msg_drop_priority ((k, q) ∷ qs)
            (invalid-droppable k q expired, o.1, o.2))
  ]

module _ {ℓ} {x : Crates} {A : Type ℓ} where
  -- Dropping expired messages of a well-formed queue cuts off the end of the waiting messages and
  -- keeps the rest in order and the queue well-formed and configured as it was. The number that is
  -- returned counts what is dropped. Nothing below the drop priority is dropped, and if anything
  -- is, the first message dropped has waited longer than the maximal age. Every queue that is left
  -- has a number below the drop priority, or a first message no older than the maximal age.
  pub drop_expired-queued :
      (q : OutQueue x A) (clock : Clock)
      → IsWellFormed q
      → (dropped : List (Entry A)) × (queued q ≡ queued (drop_expired clock q).1 ++ dropped)
        × ((drop_expired clock q).0 ≡ length dropped)
        × IsWellFormed (drop_expired clock q).1
        × ((drop_expired clock q).1.conf ≡ q.conf)
        × All (λ e. q.conf.msg_drop_priority ≤ e.priority) dropped
        × StartsStale q.conf clock dropped
        × All (IsKept q.conf clock) (drop_expired clock q).1.inner
  unfolding drop_expired expired_queues
  drop_expired-queued q clock o =
      let p = is_queue_valid q.conf clock in
      rw (remove_all-skip_while p 0 q.inner o) (
        entries (skip_while p q.inner),
        entries-take-skip p q.inner,
        refl,
        take_while-IsOrdered p 0 q.inner o,
        refl,
        skip_while-droppable q.conf clock 0 q.inner o,
        skip_while-StartsStale q.conf clock 0 q.inner o,
        take_while-IsKept q.conf clock q.inner,
      )

  -- After a drop from a well-formed queue, dropping once more, at the same readings of the clock,
  -- drops nothing and changes nothing.
  pub drop_expired_twice :
      (q : OutQueue x A) (clock : Clock)
      → IsWellFormed q
      → drop_expired clock (drop_expired clock q).1 ≡ (0, (drop_expired clock q).1)
  unfolding drop_expired expired_queues
  drop_expired_twice q clock o =
      let p = is_queue_valid q.conf clock in
      let again =
        remove_all-skip_while p 0 (take_while p q.inner) (take_while-IsOrdered p 0 q.inner o) in
      rw (
        remove_all-skip_while p 0 q.inner o,
        again,
        skip-take_while p q.inner,
        take-take_while p q.inner,
      )
