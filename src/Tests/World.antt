-- ===== src/Tests/World.antt =====
-- Crates whose encryption puts the key in front: they show that what the theorems assume of
-- serialisation and encryption can be met.
use socket_collection.Base.{
  ℕ, zero, suc, ◌+◌, ◌*◌, ◌/◌, ◌%◌, ◌^◌, ◌≡◌, sym, ap, true, Bool-cases, inl, inr, [], ◌∷◌, ◌++◌,
  length, ltb, ◌==◌, if◌then◌else◌, Result, ok, err, arith,
}
use socket_collection.Env.{Crates, Codec, Bytes, Keys, RoundTrips, FixedSizes}

abbrev pub crates : Crates
crates = record {
  SerialisationError = ℕ;
  CryptoError = ℕ;
  SharedSecretKey = ℕ;
  PublicEncryptKey = ℕ;
  SecretEncryptKey = ℕ;
  Nonce = ℕ;
  SocketAddr = ℕ;
}

abbrev pub keys : Keys crates
keys = record { Agree = λ a b. ◌≡◌ {A = ℕ} a b; IsPair = λ p s. ◌≡◌ {A = ℕ} p s }

abbrev pub unlock : ℕ → Bytes → Result ℕ Bytes
unlock key [] = err 0
unlock key (k ∷ v) = if k == key then ok v else err 1

abbrev pub messages : Codec crates Bytes
messages = record {
  serialise = λ v. ok v;
  deserialise = λ b. ok b;
  shared_encrypt = λ k n v. ok (k ∷ v);
  shared_decrypt = unlock;
  anonymously_encrypt = λ p n v. ok (p ∷ v);
  anonymously_decrypt = λ s b p. unlock s b;
}

unlock_lem :
    (k k' : ℕ) (v b : Bytes)
    → k ≡ k'
    → ◌≡◌ {A = Result ℕ Bytes} (ok (k ∷ v)) (ok b)
    → unlock k' b ≡ ok v
unlock_lem k k' v [] e h = absurd (ground arith)
unlock_lem k k' v (j ∷ b) e h = ground arith

pub messages-RoundTrips : RoundTrips keys messages
messages-RoundTrips = record {
  serialised = λ v b h. ground arith;
  shared = λ s s' n v b a h. unlock_lem s s' v b a h;
  anonymous = λ p s n v b a h. unlock_lem p s v b a h;
}

abbrev pub le4 : ℕ → Bytes
le4 m = m % 256 ∷ m / 256 % 256 ∷ m / 65536 % 256 ∷ m / 16777216 ∷ []

abbrev pub from4 : Bytes → Result ℕ ℕ
from4 (a ∷ b ∷ c ∷ d ∷ rest) = ok (a + 256 * b + 65536 * c + 16777216 * d)
from4 (a ∷ b ∷ c ∷ []) = err 2
from4 (a ∷ b ∷ []) = err 2
from4 (a ∷ []) = err 2
from4 [] = err 2

abbrev pub zeros : ℕ → Bytes
zeros zero = []
zeros (suc n) = 0 ∷ zeros n

abbrev pub unlock4 : ℕ → Bytes → Result ℕ ℕ
unlock4 key [] = err 0
unlock4 key (k ∷ v) = if k == key then from4 v else err 1

abbrev pub seal4 : ℕ → ℕ → Result ℕ Bytes
seal4 key m = if ltb m (2 ^ 32) then ok (key ∷ (le4 m ++ zeros 47)) else err 3

abbrev pub u32 : Codec crates ℕ
u32 = record {
  serialise = λ m. if ltb m (2 ^ 32) then ok (le4 m) else err 3;
  deserialise = from4;
  shared_encrypt = λ k n m. seal4 k m;
  shared_decrypt = unlock4;
  anonymously_encrypt = λ p n m. seal4 p m;
  anonymously_decrypt = λ s b p. unlock4 s b;
}

le4_lem :
    (m : ℕ)
    → m % 256 + 256 * (m / 256 % 256) + 65536 * (m / 65536 % 256) + 16777216 * (m / 16777216) ≡ m
le4_lem m = omega arith

ok-injective : {A : Type 0} {a b : A} → ◌≡◌ {A = Result ℕ A} (ok a) (ok b) → a ≡ b
ok-injective h = cc

-- What a guarded encoding wrote.
guarded :
    (m : ℕ) (l b : Bytes)
    → ◌≡◌ {A = Result ℕ Bytes} (if ltb m (2 ^ 32) then ok l else err 3) (ok b)
    → l ≡ b
guarded m l b h = elim (Bool-cases (ltb m (2 ^ 32))) [
  | inl small ↦ ok-injective (rw small at h)
  | inr big ↦ absurd (ground arith)
]

pub from4_lem : (m : ℕ) (rest : Bytes) → from4 (le4 m ++ rest) ≡ ok m
from4_lem m rest = ap ok (le4_lem m)

seal4_lem : (k k' m : ℕ) (b : Bytes) → k ≡ k' → seal4 k m ≡ ok b → unlock4 k' b ≡ ok m
seal4_lem k k' m b e h =
    let test : (k == k') ≡ true = ground arith in
    rw (← guarded m (k ∷ (le4 m ++ zeros 47)) b h, test) (from4_lem m (zeros 47))

pub u32-RoundTrips : RoundTrips keys u32
u32-RoundTrips = record {
  serialised = λ m b h. rw (← guarded m (le4 m) b h) (from4_lem m []);
  shared = λ s s' n m b a h. seal4_lem s s' m b a h;
  anonymous = λ p s n m b a h. seal4_lem p s m b a h;
}

seal4-length : (k m : ℕ) (b : Bytes) → seal4 k m ≡ ok b → length b ≡ 52
seal4-length k m b h = sym (ap length (guarded m (k ∷ (le4 m ++ zeros 47)) b h))

pub u32-FixedSizes : FixedSizes u32
u32-FixedSizes = record {
  serialised = λ m b h. sym (ap length (guarded m (le4 m) b h));
  shared = λ s n m b h. seal4-length s m b h;
  anonymous = λ p n m b h. seal4-length p m b h;
}
