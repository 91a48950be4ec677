-- ===== src/Base/Results.antt =====
-- `std::result::Result`, and the outcome of code that can panic or loop.
use mathlib.Core.Path.{◌≡◌, refl}
use mathlib.Core.Logic.{◌⊎◌, inl, inr}

pub data Result {ℓ κ} (E : Type ℓ) (A : Type κ) : Type (ℓ ⊔ κ) where
  ok : A → Result E A
  err : E → Result E A

-- The `?` operator: the error is converted by `From`.
abbrev pub map_err {ℓ κ μ} :
    {E : Type ℓ} {F : Type μ} {A : Type κ} → (E → F) → Result E A → Result F A
map_err f (ok a) = ok a
map_err f (err e) = err (f e)

pub Result-cases {ℓ κ} :
    {E : Type ℓ} {A : Type κ} (r : Result E A) → ((a : A) × (r ≡ ok a)) ⊎ ((e : E) × (r ≡ err e))
Result-cases (ok a) = inl (a, refl)
Result-cases (err e) = inr (e, refl)

-- What a run of code comes to: a value, a panic, or no more fuel for a loop.
pub data Run {ℓ} (A : Type ℓ) : Type ℓ where
  done : A → Run A
  panic : Run A
  out_of_fuel : Run A

infixl 5 ◌>>=◌
abbrev pub ◌>>=◌ {ℓ κ} : {A : Type ℓ} {B : Type κ} → Run A → (A → Run B) → Run B
done a >>= f = f a
panic >>= f = panic
out_of_fuel >>= f = out_of_fuel

pub done-injective {ℓ} : {A : Type ℓ} {a b : A} → done a ≡ done b → a ≡ b
done-injective h = cc

-- A chain that is done comes from a first part that was done.
pub bind-done {ℓ κ} :
    {A : Type ℓ} {B : Type κ} (o : Run A) (f : A → Run B) (b : B)
    → (o >>= f) ≡ done b
    → (a : A) × (o ≡ done a) × (f a ≡ done b)
bind-done panic f b h = absurd (cc)
bind-done out_of_fuel f b h = absurd (cc)
bind-done (done a) f b h = (a, refl, h)
