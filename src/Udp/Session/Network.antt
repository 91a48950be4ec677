-- ===== src/Udp/Session/Network.antt =====
-- A network that carries datagrams: it may lose, repeat and reorder them, but not change them.
use socket_collection.Base.{
  ℕ, zero, suc, ◌≡◌, refl, ap, ◌∙◌, List, [], ◌∷◌, map, Option, none, some,
}
use mathlib.Core.List.{Forall₂}

module _ {ℓ} {A : Type ℓ} where
  abbrev pub get_elem? : List A → ℕ → Option A
  get_elem? [] i = none
  get_elem? (a ∷ l) zero = some a
  get_elem? (a ∷ l) (suc i) = get_elem? l i

  -- The list with what is there in front.
  abbrev cons_some : Option A → List A → List A
  cons_some none l = l
  cons_some (some a) l = a ∷ l

  -- The datagrams with these numbers, in this order: one whose number is missing is lost, and one
  -- whose number is there twice arrives twice.
  abbrev pub carried : List ℕ → List A → List A
  carried [] l = []
  carried (i ∷ is) l = cons_some (get_elem? l i) (carried is l)

module _ {ℓ κ} {A : Type ℓ} {B : Type κ} (f : A → B) where
  cons_some-map :
      (i : ℕ) (l r : List A)
      → cons_some (get_elem? (map f l) i) (map f r) ≡ map f (cons_some (get_elem? l i) r)
  cons_some-map i [] r = refl
  cons_some-map zero (a ∷ l) r = refl
  cons_some-map (suc i) (a ∷ l) r = cons_some-map i l r

  pub map-carried : (is : List ℕ) (l : List A) → carried is (map f l) ≡ map f (carried is l)
  map-carried [] l = refl
  map-carried (i ∷ is) l =
      ap (cons_some (get_elem? (map f l) i)) (map-carried is l) ∙ cons_some-map i l (carried is l)

module _ {A B : Type 0} (R : A → B → Type 0) where
  Forall₂-cons_some :
      (i : ℕ) {l r : List A} {m s : List B}
      → Forall₂ R l m
      → Forall₂ R r s
      → Forall₂ R (cons_some (get_elem? l i) r) (cons_some (get_elem? m i) s)
  Forall₂-cons_some i Forall₂.nil k = k
  Forall₂-cons_some zero (Forall₂.cons r h) k = Forall₂.cons r k
  Forall₂-cons_some (suc i) (Forall₂.cons r h) k = Forall₂-cons_some i h k

  pub Forall₂-carried :
      (is : List ℕ) {l : List A} {m : List B}
      → Forall₂ R l m
      → Forall₂ R (carried is l) (carried is m)
  Forall₂-carried [] h = Forall₂.nil
  Forall₂-carried (i ∷ is) h = Forall₂-cons_some i h (Forall₂-carried is h)
