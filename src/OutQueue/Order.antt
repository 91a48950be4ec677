-- ===== src/OutQueue/Order.antt =====
-- The invariant of the queue of src/out_queue.rs, and its content as one list of entries.
use socket_collection.Base.{
  ℕ, suc, ◌≤◌, ◌<◌, ◌≡◌, refl, ap, List, [], ◌∷◌, ◌++◌, length, All, All-append, All-mono, arith,
  ltb, le→ltb, lt→ltb, if◌then◌else◌, Option, none, some,
}
use socket_collection.Config.{Priority}
use socket_collection.OutQueue.{Instant, Deque, Queues}

-- One message that waits to be sent.
pub record Entry {ℓ} (A : Type ℓ) : Type ℓ where
  pub priority : Priority
  pub queued_at : Instant
  pub msg : A

module _ {ℓ} {A : Type ℓ} where
  -- The keys ascend from `low` on, and no key has an empty queue.
  abbrev pub IsOrdered : ℕ → Queues A → Type 0
  IsOrdered low [] = Unit {0}
  IsOrdered low ((key, queue) ∷ rest) = (low ≤ key) × (0 < length queue) × IsOrdered (suc key) rest

  abbrev pub tagged : Priority → Deque A → List (Entry A)
  tagged key [] = []
  tagged key ((when, msg) ∷ queue) =
      record { priority = key; queued_at = when; msg = msg } ∷ tagged key queue

  -- The content in the order in which it will be sent.
  abbrev pub entries : Queues A → List (Entry A)
  entries [] = []
  entries ((key, queue) ∷ rest) = tagged key queue ++ entries rest

  -- The specification of `push`: behind all entries of the same or a lower number.
  abbrev pub insert_entry : Entry A → List (Entry A) → List (Entry A)
  insert_entry e [] = e ∷ []
  insert_entry e (f ∷ l) = if ltb e.priority f.priority then e ∷ f ∷ l else f ∷ insert_entry e l

module _ {ℓ} {A : Type ℓ} where
  pub tagged-append :
      (key : Priority) (q r : Deque A) → tagged key (q ++ r) ≡ tagged key q ++ tagged key r
  tagged-append key [] r = refl
  tagged-append key ((t, m) ∷ q) r =
      ap (◌∷◌ (record { priority = key; queued_at = t; msg = m })) (tagged-append key q r)

  pub length-tagged : (key : Priority) (q : Deque A) → length (tagged key q) ≡ length q
  length-tagged key [] = refl
  length-tagged key ((t, m) ∷ q) = ap suc (length-tagged key q)

  pub IsOrdered-mono :
      (low low' : ℕ) (qs : Queues A) → low ≤ low' → IsOrdered low' qs → IsOrdered low qs
  IsOrdered-mono low low' [] h o = tt
  IsOrdered-mono low low' ((k, q) ∷ qs) h o = (omega arith, o.1, o.2)

  tagged-ge :
      (low : ℕ) (key : Priority) (q : Deque A)
      → low ≤ key
      → All (λ e. low ≤ e.priority) (tagged key q)
  tagged-ge low key [] h = tt
  tagged-ge low key ((t, m) ∷ q) h = (h, tagged-ge low key q h)

  -- Every entry of an ordered map has at least the lowest key.
  pub entries-ge :
      (low : ℕ) (qs : Queues A) → IsOrdered low qs → All (λ e. low ≤ e.priority) (entries qs)
  entries-ge low [] o = tt
  entries-ge low ((k, q) ∷ qs) o =
      All-append _ (tagged k q) (entries qs) (tagged-ge low k q o.0)
        (entries-ge low qs (IsOrdered-mono low (suc k) qs (omega arith) o.2))

  -- A new entry passes a queue of its own or a lower number.
  pub insert_entry-tagged :
      (e : Entry A) (key : Priority) (q : Deque A) (l : List (Entry A))
      → key ≤ e.priority
      → insert_entry e (tagged key q ++ l) ≡ tagged key q ++ insert_entry e l
  insert_entry-tagged e key [] l h = refl
  insert_entry-tagged e key ((t, m) ∷ q) l h = rw (le→ltb e.priority key h) (
      ap (◌∷◌ (record { priority = key; queued_at = t; msg = m }))
        (insert_entry-tagged e key q l h))

  -- It stays in front of entries of higher numbers.
  pub insert_entry-front :
      (e : Entry A) (l : List (Entry A))
      → All (λ f. e.priority < f.priority) l
      → insert_entry e l ≡ e ∷ l
  insert_entry-front e [] h = refl
  insert_entry-front e (f ∷ l) h = rw (lt→ltb e.priority f.priority h.0)

  pub insert_entry-entries :
      (e : Entry A) (low : ℕ) (qs : Queues A)
      → e.priority < low
      → IsOrdered low qs
      → insert_entry e (entries qs) ≡ e ∷ entries qs
  insert_entry-entries e low qs h o = insert_entry-front e (entries qs) (
      All-mono (λ f. low ≤ f.priority) (λ f. e.priority < f.priority) (λ f g. omega arith)
        (entries qs) (entries-ge low qs o))

  -- The specification of `next_msg`: the first message, and the rest.
  abbrev pub pop_entry : List (Entry A) → Option A × List (Entry A)
  pop_entry [] = (none, [])
  pop_entry (e ∷ l) = (some e.msg, l)
