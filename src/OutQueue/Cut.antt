-- ===== src/OutQueue/Cut.antt =====
-- How far the sending of the messages that waited has come, as the sending loops of src/tcp.rs and
-- src/udt/udt_sock.rs go on.
use socket_collection.Base.{
  ℕ, ◌≡◌, refl, sym, ap, ◌∙◌, List, [], ◌∷◌, ◌++◌, take, drop, append_assoc, append-nil,
  append-take-drop,
}

module _ {B : Type 0} where
  -- Of the messages `before`, some were sent in whole, and a part of the next; `rest` is what is
  -- left of that one, and `after` are the messages behind it, all of them.
  abbrev pub Cut : List (List B) → List B → List (List B) → Type 0
  Cut before rest after =
      (sent : List (List B)) × (part : List B) × (before ≡ sent ++ ((part ++ rest) ∷ after))

  -- The messages `now`, the first perhaps cut, are what is left to send of `before`.
  abbrev pub Continues : List (List B) → List (List B) → Type 0
  Continues before [] = Unit {0}
  Continues before (rest ∷ after) = Cut before rest after

  pub Continues-self : (l : List (List B)) → Continues l l
  Continues-self [] = tt
  Continues-self (b ∷ l) = ([], [], refl)

  pub Continues-whole :
      (before after : List (List B)) (b : List B) → Cut before b after → Continues before after
  Continues-whole before [] b c = tt
  Continues-whole before (next ∷ after) b (sent, part, e) = (
    sent ++ ((part ++ b) ∷ []),
    [],
    e ∙ sym (append_assoc sent ((part ++ b) ∷ []) (next ∷ after)),
  )

  pub Cut-drop :
      (n : ℕ) (before after : List (List B)) (b : List B)
      → Cut before b after
      → Cut before (drop n b) after
  Cut-drop n before after b (sent, part, e) = (
    sent,
    part ++ take n b,
    e
        ∙ ap (λ m. sent ++ (m ∷ after))
            (ap (◌++◌ part) (sym (append-nil b))
              ∙ sym (append-take-drop n part b [])
              ∙ ap (◌++◌ (part ++ take n b)) (append-nil (drop n b))),
  )
