-- ===== src/Base/Try.antt =====
-- `do` blocks over `Result`: the `?` operator where no conversion of the error is needed.
use mathlib.Core.Path.{◌≡◌, refl}
use socket_collection.Base.Results.{Result, ok, err}

infixl 5 ◌>>=◌
abbrev pub ◌>>=◌ {ℓ κ μ} :
    {E : Type ℓ} {A : Type κ} {B : Type μ} → Result E A → (A → Result E B) → Result E B
ok a >>= f = f a
err e >>= f = err e

-- Inversion of a chain that succeeds.
pub >>=-eq-ok {ℓ κ μ} :
    {E : Type ℓ} {A : Type κ} {B : Type μ} (first : Result E A) (next : A → Result E B) {c : B}
    → (first >>= next) ≡ ok c
    → (v : A) × (first ≡ ok v) × (next v ≡ ok c)
>>=-eq-ok (ok v) next e = (v, refl, e)
>>=-eq-ok (err error) next e = cc
