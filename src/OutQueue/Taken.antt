-- ===== src/OutQueue/Taken.antt =====
-- What sending has taken from a queue of src/out_queue.rs: its first messages.
use socket_collection.Base.{
  ◌≡◌, refl, sym, ap, ◌∙◌, List, [], ◌∷◌, ◌++◌, concat, concat-append, append_assoc, map-append,
  Option, none, some, done,
}
use socket_collection.Env.{Crates}
use socket_collection.OutQueue.{OutQueue, take_or_next}
use socket_collection.OutQueue.Order.{Entry, pop_entry}
use socket_collection.OutQueue.Refinement.{IsWellFormed, queued, next_msg-queued}
use socket_collection.OutQueue.Waiting.{messages}
use mathlib.Core.List.{append_cancel_right}

-- The first of these messages have been taken, and these are left.
abbrev pub Leaves : {B : Type 0} → List (Entry B) → List (Entry B) → Type 0
Leaves {B} l left = (gone : List (Entry B)) × (l ≡ gone ++ left)

pub Leaves-pop_entry :
    {B : Type 0} (l before after : List (Entry B))
    → after ≡ (pop_entry before).1
    → Leaves l before
    → Leaves l after
Leaves-pop_entry l [] after h g = rw h g
Leaves-pop_entry l (e ∷ before) after h (gone, split) =
    rw h (gone ++ (e ∷ []), split ∙ sym (append_assoc gone (e ∷ []) before))

module _ {x : Crates} {B : Type 0} where
  -- Taking the next message, or the one that was begun, leaves the rest of the queue.
  pub take_or_next-Leaves :
      (l : List (Entry B)) (o : Option B) (q : OutQueue x B)
      → IsWellFormed q
      → Leaves l (queued q)
      → (r : Option B × OutQueue x B) × (take_or_next o q ≡ done r)
        × IsWellFormed r.1
        × Leaves l (queued r.1)
  unfolding take_or_next
  take_or_next-Leaves l (some msg) q w g = ((some msg, q), refl, w, g)
  take_or_next-Leaves l none q w g =
      let (r, e, w', spec, conf) = next_msg-queued q w in
      (r, e, w', Leaves-pop_entry l (queued q) (queued r.1) (ap (λ t. t.1) spec) g)

-- The same messages end with what is queued: in front of it stands what was taken from the queue.
pub taken_messages :
    {M : Type 0} (sent sent' now now' : List M) (gone left : List (Entry M))
    → sent' ++ (now' ++ messages left) ≡ sent ++ (now ++ messages (gone ++ left))
    → sent' ++ now' ≡ (sent ++ now) ++ messages gone
taken_messages sent sent' now now' gone left h = append_cancel_right _ _ (messages left) (
    append_assoc sent' now' (messages left)
    ∙ h
    ∙ ap (λ m. sent ++ (now ++ m)) (map-append (λ e. e.msg) gone left)
    ∙ sym (append_assoc sent now (messages gone ++ messages left))
    ∙ sym (append_assoc (sent ++ now) (messages gone) (messages left)))

-- The same bytes end with what is queued: in front of it stands what was taken from the queue.
pub taken_bytes :
    {B : Type 0} (wire wire' : List B) (now now' : List (List B))
    (gone left : List (Entry (List B)))
    → wire' ++ concat (now' ++ messages left) ≡ wire ++ concat (now ++ messages (gone ++ left))
    → wire' ++ concat now' ≡ (wire ++ concat now) ++ concat (messages gone)
taken_bytes wire wire' now now' gone left h =
    let rest = concat (messages left) in
    append_cancel_right _ _ rest (
      append_assoc wire' (concat now') rest
      ∙ ap (◌++◌ wire') (sym (concat-append now' (messages left)))
      ∙ h
      ∙ ap (λ m. wire ++ concat (now ++ m)) (map-append (λ e. e.msg) gone left)
      ∙ ap (◌++◌ wire) (concat-append now (messages gone ++ messages left))
      ∙ ap (λ m. wire ++ (concat now ++ m)) (concat-append (messages gone) (messages left))
      ∙ sym (append_assoc wire (concat now) (concat (messages gone) ++ rest))
      ∙ sym (append_assoc (wire ++ concat now) (concat (messages gone)) rest))
