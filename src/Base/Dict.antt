-- ===== src/Base/Dict.antt =====
-- `HashMap` and `HashSet` of the standard library, as association lists and lists.
use mathlib.Core.Path.{◌≡◌, refl, sym, ◌∙◌}
use mathlib.Core.Logic.{ite, if_pos, if_neg, ◌≢◌, ◌⊎◌, inl, inr}
use mathlib.Core.Option.{Option, none, some}
use mathlib.Core.List.{List, [], ◌∷◌, ◌++◌, Memᴰ}

module _ {ℓ κ} {K : Type ℓ} {V : Type κ} (same : Discrete K) where
  unfoldable pub get : K → List (K × V) → Option V
  get k [] = none
  get k ((j, v) ∷ map) = ite (same j k) (some v) (get k map)

  unfoldable pub remove : K → List (K × V) → List (K × V)
  remove k [] = []
  remove k ((j, v) ∷ map) = let left = remove k map in ite (same j k) left ((j, v) ∷ left)

  unfoldable pub insert : K → V → List (K × V) → List (K × V)
  insert k v map = (k, v) ∷ remove k map

  pub get-head : (k : K) (v : V) (map : List (K × V)) → get k ((k, v) ∷ map) ≡ some v
  unfolding get
  get-head k v map = if_pos (same k k) refl (some v) (get k map)

  pub get-tail : (j k : K) (v : V) (map : List (K × V)) → j ≢ k → get k ((j, v) ∷ map) ≡ get k map
  unfolding get
  get-tail j k v map h = if_neg (same j k) h (some v) (get k map)

  pub get-remove_self : (k : K) (map : List (K × V)) → get k (remove k map) ≡ none
  unfolding get remove
  get-remove_self k [] = refl
  get-remove_self k ((j, v) ∷ map) = elim (same j k) [
    | yes e ↦ rw (if_pos (same j k) e) (get-remove_self k map)
    | no d ↦ rw (if_neg (same j k) d) (get-tail j k v (remove k map) d ∙ get-remove_self k map)
  ]

  pub get-remove_other : (k i : K) (map : List (K × V)) → k ≢ i → get i (remove k map) ≡ get i map
  unfolding get remove
  get-remove_other k i [] h = refl
  get-remove_other k i ((j, v) ∷ map) h = elim (same j k) [
    | yes e ↦
        rw (if_pos (same j k) e)
          (get-remove_other k i map h ∙ sym (get-tail j i v map (λ p. h (sym e ∙ p))))
    | no d ↦ rw (if_neg (same j k) d) (elim (same j i) [
      | yes e ↦ rw (if_pos (same j i) e, if_pos (same j i) e) refl
      | no c ↦
          get-tail j i v (remove k map) c ∙ get-remove_other k i map h ∙ sym (get-tail j i v map c)
    ])
  ]

  pub get-insert_self : (k : K) (v : V) (map : List (K × V)) → get k (insert k v map) ≡ some v
  unfolding insert
  get-insert_self k v map = get-head k v (remove k map)

  pub get-insert_other :
      (k i : K) (v : V) (map : List (K × V)) → k ≢ i → get i (insert k v map) ≡ get i map
  unfolding insert
  get-insert_other k i v map h = get-tail k i v (remove k map) h ∙ get-remove_other k i map h

module _ {ℓ} {A : Type ℓ} where
  not_mem-cons : {a b : A} {set : List A} → a ≢ b → ¬ Memᴰ a set → ¬ Memᴰ a (b ∷ set)
  not_mem-cons d n (Memᴰ.head e) = d e
  not_mem-cons d n (Memᴰ.tail m) = n m

  pub Memᴰ-head : (a b : A) (set : List A) → Memᴰ a (b ∷ set) → ¬ Memᴰ a set → a ≡ b
  Memᴰ-head a b set (Memᴰ.head e) n = e
  Memᴰ-head a b set (Memᴰ.tail m) n = absurd (n m)

  pub Memᴰ-swap : (a b : A) (set : List A) {c : A} → Memᴰ c (a ∷ b ∷ set) → Memᴰ c (b ∷ a ∷ set)
  Memᴰ-swap a b set (Memᴰ.head e) = Memᴰ.tail (Memᴰ.head e)
  Memᴰ-swap a b set (Memᴰ.tail (Memᴰ.head e)) = Memᴰ.head e
  Memᴰ-swap a b set (Memᴰ.tail (Memᴰ.tail m)) = Memᴰ.tail (Memᴰ.tail m)

  pub Memᴰ-insert :
      (before : List A) (a : A) (after : List A) {c : A}
      → Memᴰ c (before ++ after)
      → Memᴰ c (before ++ (a ∷ after))
  Memᴰ-insert [] a after m = Memᴰ.tail m
  Memᴰ-insert (b ∷ before) a after (Memᴰ.head e) = Memᴰ.head e
  Memᴰ-insert (b ∷ before) a after (Memᴰ.tail m) = Memᴰ.tail (Memᴰ-insert before a after m)

  -- What is in a list is in what is left when one entry is taken out, or is that entry.
  pub of_Memᴰ-insert :
      (before : List A) (a : A) (after : List A) {c : A}
      → Memᴰ c (before ++ (a ∷ after))
      → (c ≡ a) ⊎ Memᴰ c (before ++ after)
  of_Memᴰ-insert [] a after (Memᴰ.head e) = inl e
  of_Memᴰ-insert [] a after (Memᴰ.tail m) = inr m
  of_Memᴰ-insert (b ∷ before) a after (Memᴰ.head e) = inr (Memᴰ.head e)
  of_Memᴰ-insert (b ∷ before) a after (Memᴰ.tail m) = elim (of_Memᴰ-insert before a after m) [
    | inl e ↦ inl e
    | inr k ↦ inr (Memᴰ.tail k)
  ]

module _ {ℓ} {A : Type ℓ} (same : Discrete A) where
  -- `HashSet::insert`.
  unfoldable pub add : A → List A → List A
  add a [] = a ∷ []
  add a (b ∷ set) = ite (same b a) (b ∷ set) (b ∷ add a set)

  pub add_new : (a b : A) → b ≢ a → add a (b ∷ []) ≡ b ∷ a ∷ []
  unfolding add
  add_new a b h = if_neg (same b a) h (b ∷ []) (b ∷ a ∷ [])

  pub Memᴰ-add_self : (a : A) (set : List A) → Memᴰ a (add a set)
  unfolding add
  Memᴰ-add_self a [] = Memᴰ.head refl
  Memᴰ-add_self a (b ∷ set) = elim (same b a) [
    | yes e ↦ rw (if_pos (same b a) e) (Memᴰ.head (sym e))
    | no d ↦ rw (if_neg (same b a) d) (Memᴰ.tail (Memᴰ-add_self a set))
  ]

  pub Memᴰ-add_other : {b : A} (a : A) (set : List A) → Memᴰ b set → Memᴰ b (add a set)
  unfolding add
  Memᴰ-add_other a [] m = Memᴰ.tail m
  Memᴰ-add_other a (c ∷ set) (Memᴰ.head e) = elim (same c a) [
    | yes p ↦ rw (if_pos (same c a) p) (Memᴰ.head e)
    | no d ↦ rw (if_neg (same c a) d) (Memᴰ.head e)
  ]
  Memᴰ-add_other a (c ∷ set) (Memᴰ.tail m) = elim (same c a) [
    | yes p ↦ rw (if_pos (same c a) p) (Memᴰ.tail m)
    | no d ↦ rw (if_neg (same c a) d) (Memᴰ.tail (Memᴰ-add_other a set m))
  ]

  of_Memᴰ-tail :
      {b : A} (a c : A) (set : List A)
      → (Memᴰ b (add a set) → (b ≡ a) ⊎ Memᴰ b set)
      → Memᴰ b (c ∷ add a set)
      → (b ≡ a) ⊎ Memᴰ b (c ∷ set)
  of_Memᴰ-tail a c set of_add (Memᴰ.head e) = inr (Memᴰ.head e)
  of_Memᴰ-tail a c set of_add (Memᴰ.tail m) = elim (of_add m) [
    | inl e ↦ inl e
    | inr k ↦ inr (Memᴰ.tail k)
  ]

  pub of_Memᴰ-add : {b : A} (a : A) (set : List A) → Memᴰ b (add a set) → (b ≡ a) ⊎ Memᴰ b set
  unfolding add
  of_Memᴰ-add a [] (Memᴰ.head e) = inl e
  of_Memᴰ-add a [] (Memᴰ.tail m) = inr m
  of_Memᴰ-add {b} a (c ∷ set) m = elim (same c a) [
    | yes p ↦ inr (rw (if_pos (same c a) p) at m)
    | no d ↦ of_Memᴰ-tail a c set (of_Memᴰ-add a set) (rw (if_neg (same c a) d) at m)
  ]

  pub find : (a : A) (set : List A) → Memᴰ a set ⊎ ¬ Memᴰ a set
  find a [] = inr (λ m. elim m [ ])
  find a (b ∷ set) = elim (same a b) [
    | yes e ↦ inl (Memᴰ.head e)
    | no d ↦ elim (find a set) [ inl m ↦ inl (Memᴰ.tail m) | inr n ↦ inr (not_mem-cons d n) ]
  ]
