-- ===== src/Base/Loop.antt =====
-- `loop { .. }` with its `return`s, on fuel, and the one rule by which the loops are verified.
use Prim.Native.Nat.{ℕ, zero, suc, ◌≤◌, ◌<◌}
use mathlib.Core.Path.{◌≡◌, refl}
use native.Mathlib.Omega.{arith}
use socket_collection.Base.Results.{Run, done, panic, out_of_fuel, ◌>>=◌}

-- What one round of a loop does: it goes on from a state, or returns.
pub data Flow {ℓ κ} (R : Type ℓ) (S : Type κ) : Type (ℓ ⊔ κ) where
  again : S → Flow R S
  return : R → Flow R S

module _ {ℓ κ} {R : Type ℓ} {S : Type κ} where
  abbrev pub resume : (S → Run R) → Flow R S → Run R
  resume rest (again s) = rest s
  resume rest (return r) = done r

  unfoldable pub loop : ℕ → (S → Run (Flow R S)) → S → Run R
  loop zero body s = out_of_fuel
  loop (suc fuel) body s = body s >>= resume (loop fuel body)

  pub loop-return :
      (fuel : ℕ) (body : S → Run (Flow R S)) (s : S) (r : R)
      → body s ≡ done (return r)
      → loop (suc fuel) body s ≡ done r
  unfolding loop
  loop-return fuel body s r h = rw h

  pub loop-again :
      (fuel : ℕ) (body : S → Run (Flow R S)) (s s' : S)
      → body s ≡ done (again s')
      → loop (suc fuel) body s ≡ loop fuel body s'
  unfolding loop
  loop-again fuel body s s' h = rw h

module _ {ℓ κ} {R : Type ℓ} {S : Type κ} (P : S → Type 0) (Q : R → Type 0) (measure : S → ℕ) where
  -- A round keeps the invariant and lowers the measure, or returns what is wanted.
  abbrev pub Progress : ℕ → Run (Flow R S) → Type 0
  Progress m panic = ⊥
  Progress m out_of_fuel = ⊥
  Progress m (done (again s)) = P s × (measure s < m)
  Progress m (done (return r)) = Q r

  loop_round :
      (m : ℕ) (rest : S → Run R) (o : Run (Flow R S))
      → Progress m o
      → ((s : S) → P s → measure s < m → (r : R) × (rest s ≡ done r) × Q r)
      → (r : R) × ((o >>= resume rest) ≡ done r) × Q r
  loop_round m rest panic h ih = absurd h
  loop_round m rest out_of_fuel h ih = absurd h
  loop_round m rest (done (again s)) h ih = ih s h.0 h.1
  loop_round m rest (done (return r)) h ih = (r, refl, h)

  -- A loop returns, with what is wanted, as soon as its fuel exceeds the measure.
  pub loop_rule :
      (body : S → Run (Flow R S))
      → ((s : S) → P s → Progress (measure s) (body s))
      → (fuel : ℕ) (s : S) → measure s < fuel
      → P s
      → (r : R) × (loop fuel body s ≡ done r) × Q r
  unfolding loop
  loop_rule body keep zero s m h = absurd (omega arith)
  loop_rule body keep (suc fuel) s m h =
      loop_round (measure s) (loop fuel body) (body s) (keep s h)
        (λ s' h' lower. loop_rule body keep fuel s' (omega arith) h')

-- The run does not panic, and what it comes to is as wanted.
abbrev pub Safe {ℓ} : {A : Type ℓ} → (A → Type 0) → Run A → Type 0
Safe W panic = ⊥
Safe W out_of_fuel = Unit {0}
Safe W (done a) = W a

pub Safe-mono {ℓ} :
    {A : Type ℓ} (W V : A → Type 0) (o : Run A) → ((a : A) → W a → V a) → Safe W o → Safe V o
Safe-mono W V panic f h = h
Safe-mono W V out_of_fuel f h = tt
Safe-mono W V (done a) f h = f a h

pub bind-Safe {ℓ κ} :
    {A : Type ℓ} {B : Type κ} (W : A → Type 0) (V : B → Type 0) (o : Run A) (f : A → Run B)
    → Safe W o
    → ((a : A) → W a → Safe V (f a))
    → Safe V (o >>= f)
bind-Safe W V panic f h g = h
bind-Safe W V out_of_fuel f h g = tt
bind-Safe W V (done a) f h g = g a h

module _ {ℓ κ} {R : Type ℓ} {S : Type κ} (P : S → Type 0) (Q : R → Type 0) where
  abbrev pub Keeps : Flow R S → Type 0
  Keeps (again s) = P s
  Keeps (return r) = Q r

  resume-Safe :
      (rest : S → Run R) (o : Run (Flow R S))
      → Safe Keeps o
      → ((s : S) → P s → Safe Q (rest s))
      → Safe Q (o >>= resume rest)
  resume-Safe rest panic h ih = h
  resume-Safe rest out_of_fuel h ih = tt
  resume-Safe rest (done (again s)) h ih = ih s h
  resume-Safe rest (done (return r)) h ih = h

  -- If no round panics and each keeps the invariant, the loop does not panic, on any fuel.
  pub loop-Safe :
      (body : S → Run (Flow R S))
      → ((s : S) → P s → Safe Keeps (body s))
      → (fuel : ℕ) (s : S) → P s
      → Safe Q (loop fuel body s)
  unfolding loop
  loop-Safe body keep zero s h = tt
  loop-Safe body keep (suc fuel) s h =
      resume-Safe (loop fuel body) (body s) (keep s h) (loop-Safe body keep fuel)

module _ {ℓ κ} {R : Type ℓ} {S : Type κ} where
  resume_mono :
      (rest rest' : S → Run R) (o : Run (Flow R S)) (r : R)
      → ((s : S) → rest s ≡ done r → rest' s ≡ done r)
      → (o >>= resume rest) ≡ done r
      → (o >>= resume rest') ≡ done r
  resume_mono rest rest' panic r ih h = absurd (ground arith)
  resume_mono rest rest' out_of_fuel r ih h = absurd (ground arith)
  resume_mono rest rest' (done (again s)) r ih h = ih s h
  resume_mono rest rest' (done (return x)) r ih h = h

  -- More fuel does not change what a loop returns.
  pub loop_mono :
      (body : S → Run (Flow R S)) (fuel fuel' : ℕ) (s : S) (r : R)
      → fuel ≤ fuel'
      → loop fuel body s ≡ done r
      → loop fuel' body s ≡ done r
  unfolding loop
  loop_mono body zero fuel' s r l h = absurd (ground arith)
  loop_mono body (suc fuel) zero s r l h = absurd (omega arith)
  loop_mono body (suc fuel) (suc fuel') s r l h =
      resume_mono (loop fuel body) (loop fuel' body) (body s) r
        (λ s' h'. loop_mono body fuel fuel' s' r (omega arith) h') h
