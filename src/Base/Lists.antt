-- ===== src/Base/Lists.antt =====
-- Lists over native numbers, under the library's names, and a predicate on every entry.
use Prim.Native.Nat.{ℕ, zero, suc, ◌+◌, ◌-◌, ◌≤◌}
use mathlib.Core.Path.{◌≡◌, refl, sym, ap, ◌∙◌}
use mathlib.Core.Bool.{Bool, true, false}
use mathlib.Core.List.{List, [], ◌∷◌, ◌++◌, map, append_assoc}
use native.Mathlib.Omega.{arith}

module _ {ℓ} {A : Type ℓ} where
  abbrev pub length : List A → ℕ
  length [] = 0
  length (a ∷ l) = suc (length l)

  abbrev pub take : ℕ → List A → List A
  take zero l = []
  take (suc n) [] = []
  take (suc n) (a ∷ l) = a ∷ take n l

  abbrev pub drop : ℕ → List A → List A
  drop zero l = l
  drop (suc n) [] = []
  drop (suc n) (a ∷ l) = drop n l

  -- `Vec::is_empty`, `VecDeque::is_empty`.
  abbrev pub is_empty : List A → Bool
  is_empty [] = true
  is_empty (x ∷ xs) = false

  abbrev pub concat : List (List A) → List A
  concat [] = []
  concat (x ∷ xs) = x ++ concat xs

  abbrev pub All {κ} : (A → Type κ) → List A → Type κ
  All P [] = Unit
  All P (x ∷ xs) = P x × All P xs

module _ {ℓ} {A : Type ℓ} where
  pub length-append : (xs ys : List A) → length (xs ++ ys) ≡ length xs + length ys
  length-append [] ys = omega arith
  length-append (x ∷ xs) ys = omega (arith, length-append xs ys)

  pub take-append-drop : (n : ℕ) (xs : List A) → take n xs ++ drop n xs ≡ xs
  take-append-drop zero xs = refl
  take-append-drop (suc n) [] = refl
  take-append-drop (suc n) (x ∷ xs) = ap (◌∷◌ x) (take-append-drop n xs)

  pub length-drop : (n : ℕ) (xs : List A) → length (drop n xs) ≡ length xs - n
  length-drop zero xs = omega arith
  length-drop (suc n) [] = omega arith
  length-drop (suc n) (x ∷ xs) = omega (arith, length-drop n xs)

  -- A prefix that is cut off again at its own length.
  pub take-append : (n : ℕ) (xs ys : List A) → length xs ≡ n → take n (xs ++ ys) ≡ xs
  take-append zero [] ys h = refl
  take-append zero (x ∷ xs) ys h = absurd (omega arith)
  take-append (suc n) [] ys h = absurd (omega arith)
  take-append (suc n) (x ∷ xs) ys h = ap (◌∷◌ x) (take-append n xs ys (omega arith))

  pub drop-append : (n : ℕ) (xs ys : List A) → length xs ≡ n → drop n (xs ++ ys) ≡ ys
  drop-append zero [] ys h = refl
  drop-append zero (x ∷ xs) ys h = absurd (omega arith)
  drop-append (suc n) [] ys h = absurd (omega arith)
  drop-append (suc n) (x ∷ xs) ys h = drop-append n xs ys (omega arith)

  pub take_of_length-le : (n : ℕ) (l : List A) → length l ≤ n → take n l ≡ l
  take_of_length-le zero [] h = refl
  take_of_length-le zero (a ∷ l) h = absurd (omega arith)
  take_of_length-le (suc n) [] h = refl
  take_of_length-le (suc n) (a ∷ l) h = ap (◌∷◌ a) (take_of_length-le n l (omega arith))

  pub drop_of_length-le : (n : ℕ) (l : List A) → length l ≤ n → drop n l ≡ []
  drop_of_length-le zero [] h = refl
  drop_of_length-le zero (a ∷ l) h = absurd (omega arith)
  drop_of_length-le (suc n) [] h = refl
  drop_of_length-le (suc n) (a ∷ l) h = drop_of_length-le n l (omega arith)

  pub All-append {κ} : (P : A → Type κ) (xs ys : List A) → All P xs → All P ys → All P (xs ++ ys)
  All-append P [] ys h k = k
  All-append P (x ∷ xs) ys h k = (h.0, All-append P xs ys h.1 k)

  pub All-mono {κ μ} :
      (P : A → Type κ) (Q : A → Type μ)
      → ((a : A) → P a → Q a)
      → (xs : List A) → All P xs
      → All Q xs
  All-mono P Q f [] h = tt
  All-mono P Q f (x ∷ xs) h = (f x h.0, All-mono P Q f xs h.1)

  -- A list that begins two ways: the longer beginning holds the shorter one.
  pub append-eq-append :
      (xs ys zs ws : List A)
      → xs ++ ys ≡ zs ++ ws
      → length zs ≤ length xs
      → (ps : List A) × (xs ≡ zs ++ ps) × (ps ++ ys ≡ ws)
  append-eq-append xs ys [] ws h l = (xs, refl, h)
  append-eq-append [] ys (z ∷ zs) ws h l = absurd (omega arith)
  append-eq-append (x ∷ xs) ys (z ∷ zs) ws h l =
      let (ps, e, f) = append-eq-append xs ys zs ws (cc) (omega arith) in (ps, ground (arith, e), f)

  pub append-cancel : (xs ys zs : List A) → xs ++ ys ≡ xs ++ zs → ys ≡ zs
  append-cancel [] ys zs h = h
  append-cancel (x ∷ xs) ys zs h = append-cancel xs ys zs (cc)

  pub length-take-le : (n : ℕ) (l : List A) → length (take n l) ≤ n
  length-take-le zero l = omega arith
  length-take-le (suc n) [] = omega arith
  length-take-le (suc n) (a ∷ l) = omega (arith, length-take-le n l)

  -- More bytes at the end do not change a beginning that is there.
  pub take-append-le : (n : ℕ) (xs ys : List A) → n ≤ length xs → take n (xs ++ ys) ≡ take n xs
  take-append-le zero xs ys h = refl
  take-append-le (suc n) [] ys h = absurd (omega arith)
  take-append-le (suc n) (x ∷ xs) ys h = ap (◌∷◌ x) (take-append-le n xs ys (omega arith))

  -- A write that took a beginning, seen from the whole.
  pub append-take-drop :
      (n : ℕ) (xs ys zs : List A) → (xs ++ take n ys) ++ (drop n ys ++ zs) ≡ xs ++ (ys ++ zs)
  append-take-drop n xs ys zs =
      append_assoc xs (take n ys) (drop n ys ++ zs)
      ∙ ap (◌++◌ xs) (
          sym (append_assoc (take n ys) (drop n ys) zs) ∙ ap (λ t. t ++ zs) (take-append-drop n ys))

module _ {ℓ} {A : Type ℓ} where
  pub length-concat-append :
      (xs ys : List (List A)) → length (concat (xs ++ ys)) ≡ length (concat xs) + length (concat ys)
  length-concat-append [] ys = omega arith
  length-concat-append (x ∷ xs) ys = omega (
    arith,
    length-concat-append xs ys,
    length-append x (concat (xs ++ ys)),
    length-append x (concat xs),
  )

  pub concat-append : (xs ys : List (List A)) → concat (xs ++ ys) ≡ concat xs ++ concat ys
  concat-append [] ys = refl
  concat-append (x ∷ xs) ys =
      ap (◌++◌ x) (concat-append xs ys) ∙ sym (append_assoc x (concat xs) (concat ys))

pub length-map {ℓ κ} :
    {A : Type ℓ} {B : Type κ} (f : A → B) (l : List A) → length (map f l) ≡ length l
length-map f [] = refl
length-map f (a ∷ l) = ap suc (length-map f l)
