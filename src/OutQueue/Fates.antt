-- ===== src/OutQueue/Fates.antt =====
-- What becomes of the messages that are pushed to a queue of src/out_queue.rs, priority by
-- priority, while others are sent and dropped.
use socket_collection.Base.{
  ◌≤◌, ◌<◌, ◌≡◌, refl, sym, ap, ap₂, subst, ◌∙◌, List, [], ◌∷◌, ◌++◌, All, All-mono, arith, ltb,
  ltb→lt, ltb→le, ◌==◌, if◌then◌else◌, inl, inr, Bool-cases, append_assoc, append-nil,
}
use socket_collection.Config.{Priority}
use socket_collection.OutQueue.Order.{Entry, insert_entry}
use mathlib.Core.List.{Forall₂, Sublistᴰ}
use mathlib.Core.List.Sublistᴰ

module _ {ℓ} {A : Type ℓ} where
  -- The messages of one priority.
  abbrev pub of_priority : Priority → List (Entry A) → List (Entry A)
  of_priority q [] = []
  of_priority q (e ∷ l) = if e.priority == q then e ∷ of_priority q l else of_priority q l

  -- The priority numbers do not descend.
  abbrev pub IsSorted : List (Entry A) → Type 0
  IsSorted [] = Unit {0}
  IsSorted (e ∷ l) = All (λ f. e.priority ≤ f.priority) l × IsSorted l

  pub of_priority-append :
      (q : Priority) (l l' : List (Entry A))
      → of_priority q (l ++ l') ≡ of_priority q l ++ of_priority q l'
  of_priority-append q [] l' = refl
  of_priority-append q (e ∷ l) l' = ground (arith, of_priority-append q l l')

  pub of_priority-none :
      (q low : Priority) (l : List (Entry A))
      → q < low
      → All (λ e. low ≤ e.priority) l
      → of_priority q l ≡ []
  of_priority-none q low [] h a = refl
  of_priority-none q low (e ∷ l) h a = ground (arith, of_priority-none q low l h a.1)

  -- A new message is the last of its own priority, and no matter to the others.
  pub of_priority-insert_entry :
      (q : Priority) (e : Entry A) (l : List (Entry A))
      → IsSorted l
      → of_priority q (insert_entry e l) ≡ of_priority q l ++ of_priority q (e ∷ [])
  of_priority-insert_entry q e [] s = refl
  of_priority-insert_entry q e (f ∷ l) s = elim (Bool-cases (ltb e.priority f.priority)) [
    | inl before ↦ elim (Bool-cases (e.priority == q)) [
      | inl same ↦
          let none_there =
            of_priority-none q f.priority (f ∷ l) (ground arith) (omega arith, s.0) in
          rw (before, same) (ap (◌∷◌ e) none_there ∙ ap (λ t. t ++ (e ∷ [])) (sym none_there))
      | inr differs ↦ rw (before, differs) (sym (append-nil (of_priority q (f ∷ l))))
    ]
    | inr behind ↦ rw behind (ground (arith, of_priority-insert_entry q e l s.1))
  ]

  insert_entry-All :
      (P : Priority → Type 0) (e : Entry A) (l : List (Entry A))
      → P e.priority
      → All (λ f. P f.priority) l
      → All (λ f. P f.priority) (insert_entry e l)
  insert_entry-All P e [] h a = (h, tt)
  insert_entry-All P e (f ∷ l) h a = ground (arith, insert_entry-All P e l h a.1)

  pub insert_entry-IsSorted :
      (e : Entry A) (l : List (Entry A)) → IsSorted l → IsSorted (insert_entry e l)
  insert_entry-IsSorted e [] s = (tt, tt)
  insert_entry-IsSorted e (f ∷ l) s = elim (Bool-cases (ltb e.priority f.priority)) [
    | inl before ↦
        let less = ltb→lt e.priority f.priority before in
        rw before (
          (
            omega (arith, less),
            All-mono (λ g. f.priority ≤ g.priority) (λ g. e.priority ≤ g.priority)
                (λ g h. omega (arith, less, h)) l s.0,
          ),
          s,
        )
    | inr behind ↦ rw behind (
      insert_entry-All (λ p. f.priority ≤ p) e l (ltb→le e.priority f.priority behind) s.0,
      insert_entry-IsSorted e l s.1,
    )
  ]

  All-append-left {κ} : (P : Entry A → Type κ) (l l' : List (Entry A)) → All P (l ++ l') → All P l
  All-append-left P [] l' h = tt
  All-append-left P (e ∷ l) l' h = (h.0, All-append-left P l l' h.1)

  pub IsSorted-append : (l l' : List (Entry A)) → IsSorted (l ++ l') → IsSorted l × IsSorted l'
  IsSorted-append [] l' s = (tt, s)
  IsSorted-append (e ∷ l) l' (least, s) =
      let (before, after) = IsSorted-append l l' s in
      ((All-append-left _ l l' least, before), after)

  Sublistᴰ-append_left : (l l' : List (Entry A)) → Sublistᴰ l (l ++ l')
  Sublistᴰ-append_left l l' =
      subst (λ t. Sublistᴰ t (l ++ l')) (append-nil l)
        (Sublistᴰ.append (Sublistᴰ.refl l) (Sublistᴰ.nil-sublist l'))

  -- Of the messages `vs` that were pushed, these are left: of each priority some, in the order in
  -- which they were pushed, and all of those below the drop priority.
  abbrev pub Survives : Priority → List (Entry A) → List (Entry A) → Type ℓ
  Survives low us vs =
      (q : Priority)
      → Sublistᴰ (of_priority q us) (of_priority q vs)
        × (q < low → of_priority q us ≡ of_priority q vs)

  pub Survives-drop :
      (low : Priority) (us dropped vs : List (Entry A))
      → All (λ e. low ≤ e.priority) dropped
      → Survives low (us ++ dropped) vs
      → Survives low us vs
  Survives-drop low us dropped vs droppable h q =
      let split = of_priority-append q us dropped in
      (
        Sublistᴰ.trans (Sublistᴰ-append_left (of_priority q us) (of_priority q dropped))
            (subst (λ l. Sublistᴰ l (of_priority q vs)) split (h q).0),
        λ below.
            sym (append-nil (of_priority q us))
            ∙ ap (◌++◌ (of_priority q us)) (sym (of_priority-none q low dropped below droppable))
            ∙ sym split
            ∙ (h q).1 below,
      )

  pub Survives-insert_entry :
      (low : Priority) (sent left vs : List (Entry A)) (e : Entry A)
      → IsSorted left
      → Survives low (sent ++ left) vs
      → Survives low (sent ++ insert_entry e left) (vs ++ (e ∷ []))
  Survives-insert_entry low sent left vs e s h q =
      let before : of_priority q (sent ++ insert_entry e left)
          ≡ of_priority q (sent ++ left) ++ of_priority q (e ∷ []) =
        of_priority-append q sent (insert_entry e left)
        ∙ ap (◌++◌ (of_priority q sent)) (of_priority-insert_entry q e left s)
        ∙ sym (append_assoc (of_priority q sent) (of_priority q left) (of_priority q (e ∷ [])))
        ∙ ap (λ l. l ++ of_priority q (e ∷ [])) (sym (of_priority-append q sent left)) in
      rw (before, of_priority-append q vs (e ∷ []))
        (
          Sublistᴰ.append (h q).0 (Sublistᴰ.refl (of_priority q (e ∷ []))),
          λ below. ap (λ l. l ++ of_priority q (e ∷ [])) ((h q).1 below),
        )

module _ {ℓ μ} {A : Type ℓ} {B : Type μ} (R : Entry A → Entry B → Type 0) where
  pub Forall₂-insert_entry :
      ((a : Entry A) (b : Entry B) → R a b → a.priority ≡ b.priority)
      → {a : Entry A} {b : Entry B} {xs : List (Entry A)} {ys : List (Entry B)} → R a b
      → Forall₂ R xs ys
      → Forall₂ R (insert_entry a xs) (insert_entry b ys)
  Forall₂-insert_entry same r Forall₂.nil = Forall₂.cons r Forall₂.nil
  Forall₂-insert_entry same {a} {b} r (Forall₂.cons {a = a'} {b = b'} r' h) =
      let test = ap₂ ltb (same a b r) (same a' b' r') in
      elim (Bool-cases (ltb b.priority b'.priority)) [
        | inl before ↦ rw (test ∙ before, before) (Forall₂.cons r (Forall₂.cons r' h))
        | inr behind ↦ rw (test ∙ behind, behind) (Forall₂.cons r' (Forall₂-insert_entry same r h))
      ]
