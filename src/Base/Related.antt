-- ===== src/Base/Related.antt =====
-- Two lists whose entries are related one by one, put together and taken apart.
use mathlib.Core.Path.{◌≡◌, refl, ap}
use mathlib.Core.List.{List, [], ◌∷◌, ◌++◌}
use mathlib.Core.List.{Forall₂}

module _ {ℓ μ κ} {A : Type ℓ} {B : Type μ} {R : A → B → Type κ} where
  pub Forall₂-append :
      {xs xs' : List A} {ys ys' : List B}
      → Forall₂ R xs ys
      → Forall₂ R xs' ys'
      → Forall₂ R (xs ++ xs') (ys ++ ys')
  Forall₂-append Forall₂.nil h' = h'
  Forall₂-append (Forall₂.cons r h) h' = Forall₂.cons r (Forall₂-append h h')

  pub Forall₂-split :
      {xs : List A} (ys ys' : List B)
      → Forall₂ R xs (ys ++ ys')
      → (zs : List A) × (zs' : List A) × (xs ≡ zs ++ zs') × Forall₂ R zs ys × Forall₂ R zs' ys'
  Forall₂-split {xs} [] ys' h = ([], xs, refl, Forall₂.nil, h)
  Forall₂-split (b ∷ ys) ys' (Forall₂.cons {a = a} {l₁ = l} r h) =
      let (zs, zs', e, before, after) = Forall₂-split {xs = l} ys ys' h in
      (a ∷ zs, zs', ap (◌∷◌ a) e, Forall₂.cons r before, after)
