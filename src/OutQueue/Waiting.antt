-- ===== src/OutQueue/Waiting.antt =====
-- The messages that a socket has still to send, over src/out_queue.rs: the one that is being sent,
-- then those of the queue.
use socket_collection.Base.{
  ◌≡◌, refl, ap, List, [], ◌∷◌, ◌++◌, map, Option, none, some, done, arith,
}
use socket_collection.Env.{Crates}
use socket_collection.OutQueue.{OutQueue, take_or_next}
use socket_collection.OutQueue.Order.{Entry, pop_entry}
use socket_collection.OutQueue.Refinement.{IsWellFormed, queued, next_msg-queued}

module _ {ℓ} {A : Type ℓ} where
  abbrev pub current : Option A → List A
  current none = []
  current (some msg) = msg ∷ []

  abbrev pub messages : List (Entry A) → List A
  messages = map (λ e. e.msg)

  -- The first message is taken, or there is none.
  abbrev pub Takes : List A → Option A → List A → Type ℓ
  Takes before none after = (before ≡ []) × (after ≡ [])
  Takes before (some msg) after = before ≡ msg ∷ after

  pub Takes-pop_entry :
      (l l' : List (Entry A)) (o : Option A)
      → ◌≡◌ {A = Option A × List (Entry A)} (o, l') (pop_entry l)
      → Takes (messages l) o (messages l')
  Takes-pop_entry [] l' none h = (refl, ap messages (ap (λ t. t.1) h))
  Takes-pop_entry [] l' (some b) h = absurd (ground arith)
  Takes-pop_entry (e ∷ l) l' none h = absurd (ground arith)
  Takes-pop_entry (e ∷ l) l' (some b) h = ground arith

module _ {ℓ} {x : Crates} {A : Type ℓ} where
  abbrev pub waiting : Option A → OutQueue x A → List A
  waiting o q = current o ++ messages (queued q)

  -- On a well-formed queue `take_or_next` does not panic, and takes the first of what is waiting.
  pub take_or_next-Takes :
      (o : Option A) (q : OutQueue x A)
      → IsWellFormed q
      → (r : Option A × OutQueue x A) × (take_or_next o q ≡ done r)
        × Takes (waiting o q) r.0 (messages (queued r.1))
        × IsWellFormed r.1
        × (r.1.conf ≡ q.conf)
  unfolding take_or_next
  take_or_next-Takes (some msg) q w = ((some msg, q), refl, refl, w, refl)
  take_or_next-Takes none q w =
      let (r, e, w', spec, kept) = next_msg-queued q w in
      (r, e, Takes-pop_entry (queued q) (queued r.1) r.0 spec, w', kept)
