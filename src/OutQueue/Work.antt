-- ===== src/OutQueue/Work.antt =====
-- The bytes and the messages that a socket has still to send, when the queue of src/out_queue.rs
-- changes.
use socket_collection.Base.{
  suc, ◌+◌, ◌≤◌, ◌≡◌, refl, ap, List, [], ◌∷◌, ◌++◌, length, concat, arith, length-append,
  length-concat-append, map-append, ltb, inl, inr, Bool-cases,
}
use socket_collection.Env.{Bytes}
use socket_collection.OutQueue.Order.{Entry, insert_entry}
use socket_collection.OutQueue.Waiting.{messages}

-- A bound on the work with a list that got longer by one message.
concat-insert_entry :
    (e : Entry Bytes) (l : List (Entry Bytes))
    → (length (concat (messages (insert_entry e l))) ≡ length e.msg + length (concat (messages l)))
      × (length (messages (insert_entry e l)) ≡ suc (length (messages l)))
concat-insert_entry e [] = (omega (arith, length-append e.msg []), refl)
concat-insert_entry e (f ∷ l) = elim (Bool-cases (ltb e.priority f.priority)) [
  | inl before ↦ rw before (
    omega (
      arith,
      length-append e.msg (f.msg ++ concat (messages l)),
      length-append f.msg (concat (messages l)),
    ),
    refl,
  )
  | inr behind ↦
      let (bytes, count) = concat-insert_entry e l in
      rw behind (
        omega (
          arith,
          bytes,
          length-append f.msg (concat (messages (insert_entry e l))),
          length-append f.msg (concat (messages l)),
        ),
        omega (arith, count),
      )
]

-- The work after a push is bounded by the work before, as if nothing had been dropped.
pub work-insert_entry :
    (cur : List Bytes) (e : Entry Bytes) (kept dropped : List (Entry Bytes))
    → let after = cur ++ messages (insert_entry e kept) in
      let before = cur ++ messages (kept ++ dropped) in
      length (concat after) + length after
      ≤ suc (length e.msg) + (length (concat before) + length before)
work-insert_entry cur e kept dropped =
    let (bytes, count) = concat-insert_entry e kept in
    let split = map-append (λ (t : Entry Bytes). t.msg) kept dropped in
    omega (
      arith,
      bytes,
      count,
      ap length split,
      ap (λ l. length (concat l)) split,
      length-concat-append cur (messages (insert_entry e kept)),
      length-concat-append cur (messages (kept ++ dropped)),
      length-concat-append (messages kept) (messages dropped),
      length-append cur (messages (insert_entry e kept)),
      length-append cur (messages (kept ++ dropped)),
      length-append (messages kept) (messages dropped),
    )

pub work-append :
    (cur : List Bytes) (kept dropped : List (Entry Bytes))
    → let after = cur ++ messages kept in
      let before = cur ++ messages (kept ++ dropped) in
      length (concat after) + length after ≤ length (concat before) + length before
work-append cur kept dropped =
    let split = map-append (λ (t : Entry Bytes). t.msg) kept dropped in
    omega (
      arith,
      ap length split,
      ap (λ l. length (concat l)) split,
      length-concat-append cur (messages kept),
      length-concat-append cur (messages (kept ++ dropped)),
      length-concat-append (messages kept) (messages dropped),
      length-append cur (messages kept),
      length-append cur (messages (kept ++ dropped)),
      length-append (messages kept) (messages dropped),
    )
