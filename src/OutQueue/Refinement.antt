-- ===== src/OutQueue/Refinement.antt =====
-- `push_at` and `next_msg` of src/out_queue.rs against a list of entries sorted by priority.
use socket_collection.Base.{
  ℕ, suc, ◌≤◌, ◌≡◌, refl, sym, ap, ◌∙◌, List, [], ◌∷◌, ◌++◌, ltb, ltb→lt, ltb→le, ◌==◌,
  length-append, append_assoc, arith, inl, inr, Bool-cases, Option, none, some, done,
}
use socket_collection.Env.{Crates}
use socket_collection.Config.{Priority, SocketConfig}
use socket_collection.OutQueue.{
  Instant, Queues, OutQueue, new, push_entry, push_at, remove, pop_first, next_msg,
}
use socket_collection.OutQueue.Order.{
  Entry, IsOrdered, tagged, entries, insert_entry, pop_entry, tagged-append, IsOrdered-mono,
  insert_entry-tagged, insert_entry-entries,
}

module _ {ℓ} {A : Type ℓ} where
  pub push_entry-IsOrdered :
      (low : ℕ) (p : Priority) (t : Instant) (m : A) (qs : Queues A)
      → low ≤ p
      → IsOrdered low qs
      → IsOrdered low (push_entry p t m qs)
  unfolding push_entry
  push_entry-IsOrdered low p t m [] h o = (h, omega arith, tt)
  push_entry-IsOrdered low p t m ((k, q) ∷ qs) h o =
      ground (arith, push_entry-IsOrdered (suc k) p t m qs, length-append q ((t, m) ∷ []))

  pub entries-push_entry :
      (low : ℕ) (p : Priority) (t : Instant) (m : A) (qs : Queues A)
      → IsOrdered low qs
      → entries (push_entry p t m qs)
        ≡ insert_entry (record { priority = p; queued_at = t; msg = m }) (entries qs)
  unfolding push_entry
  entries-push_entry low p t m [] o = refl
  entries-push_entry low p t m ((k, q) ∷ qs) o = elim (Bool-cases (k == p)) [
    | inl same ↦
        let e : k ≡ p = ground arith in
        rw (
          same,
          push_entry,
          insert_entry-tagged new k q (entries qs) (omega arith),
          insert_entry-entries new (suc k) qs (omega arith) o.2,
          tagged-append k q ((t, m) ∷ []),
          append_assoc,
          e,
        )
    | inr differs ↦ elim (Bool-cases (ltb p k)) [
      | inl before ↦
          rw (differs, before, push_entry)
            (sym (
              insert_entry-entries new k ((k, q) ∷ qs) (ltb→lt p k before) (omega arith, o.1, o.2)))
      | inr behind ↦
          rw (differs, behind, push_entry)
            (ap (◌++◌ (tagged k q)) (entries-push_entry (suc k) p t m qs o.2)
              ∙ sym (insert_entry-tagged new k q (entries qs) (ltb→le p k behind)))
    ]
  ]
    where
      new : Entry A
      new = record { priority = p; queued_at = t; msg = m }

  pub pop_first-entries :
      (low : ℕ) (qs : Queues A)
      → IsOrdered low qs
      → (r : Option A × Queues A) × (pop_first qs ≡ done r)
        × IsOrdered low r.1
        × (◌≡◌ {A = Option A × List (Entry A)} (r.0, entries r.1) (pop_entry (entries qs)))
  unfolding pop_first remove
  pop_first-entries low [] o = ((none, []), refl, tt, refl)
  pop_first-entries low ((k, []) ∷ qs) o = absurd (omega arith)
  pop_first-entries low ((k, (t, m) ∷ []) ∷ qs) o =
      ((some m, qs), ground arith, IsOrdered-mono low (suc k) qs (omega arith) o.2, refl)
  pop_first-entries low ((k, (t, m) ∷ e ∷ q) ∷ qs) o =
      ((some m, (k, e ∷ q) ∷ qs), refl, (o.0, omega arith, o.2), refl)

module _ {ℓ} {x : Crates} {A : Type ℓ} where
  abbrev pub IsWellFormed : OutQueue x A → Type 0
  IsWellFormed q = IsOrdered 0 q.inner

  abbrev pub queued : OutQueue x A → List (Entry A)
  queued q = entries q.inner

  -- A new queue is well-formed and holds nothing.
  pub new-IsWellFormed :
      (q : OutQueue x A) (conf : SocketConfig x) → q ≡ new conf → IsWellFormed q × (queued q ≡ [])
  unfolding new
  new-IsWellFormed q conf e = (rw e tt, rw e)

  -- Pushing to a well-formed queue keeps it well-formed and its configuration as it was, and adds
  -- the message behind all waiting messages of the same or a lower priority number, and in front
  -- of the others, which keep their order.
  pub queued-push_at :
      (q : OutQueue x A) (when : Instant) (msg : A) (p : Priority)
      → IsWellFormed q
      → IsWellFormed (push_at q when msg p)
        × (queued (push_at q when msg p)
            ≡ insert_entry (record { priority = p; queued_at = when; msg = msg }) (queued q))
        × ((push_at q when msg p).conf ≡ q.conf)
  unfolding push_at
  queued-push_at q when msg p o = (
    push_entry-IsOrdered 0 p when msg q.inner (omega arith) o,
    entries-push_entry 0 p when msg q.inner o,
    refl,
  )

  -- On a well-formed queue `next_msg` does not panic: it returns the first waiting message, none
  -- only if nothing waits, and leaves a well-formed queue of the other messages in their order.
  pub next_msg-queued :
      (q : OutQueue x A)
      → IsWellFormed q
      → (r : Option A × OutQueue x A) × (next_msg q ≡ done r)
        × IsWellFormed r.1
        × (◌≡◌ {A = Option A × List (Entry A)} (r.0, queued r.1) (pop_entry (queued q)))
        × (r.1.conf ≡ q.conf)
  unfolding next_msg
  next_msg-queued q o =
      let (r, e, ordered, spec) = pop_first-entries 0 q.inner o in
      ((r.0, record q { inner = r.1 }), rw e, ordered, spec, refl)
