-- ===== src/Base/Results.antt =====
-- A call that may raise: its value, or the exception.
use mathlib.Core.Path.{◌≡◌, refl}
use mathlib.Core.Logic.{◌⊎◌, inl, inr}

pub data Result {ℓ κ} (E : Type ℓ) (A : Type κ) : Type (ℓ ⊔ κ) where
  ok : A → Result E A
  err : E → Result E A

pub Result-cases {ℓ κ} :
    {E : Type ℓ} {A : Type κ} (call : Result E A)
    → ((value : A) × (call ≡ ok value)) ⊎ ((raised : E) × (call ≡ err raised))
Result-cases (err raised) = inr (raised, refl)
Result-cases (ok value) = inl (value, refl)

module _ {ℓ κ μ} {E : Type ℓ} {A : Type κ} {B : Type μ} where
  infixl 5 ◌>>=◌
  abbrev pub ◌>>=◌ : Result E A → (A → Result E B) → Result E B
  err raised >>= next = err raised
  ok value >>= next = next value

  -- Inversion of a chain of two calls that raised: the first one did, or the second one.
  pub >>=-eq-err :
      (call : Result E A) (next : A → Result E B) {raised : E}
      → (call >>= next) ≡ err raised
      → (call ≡ err raised) ⊎ ((value : A) × (call ≡ ok value) × (next value ≡ err raised))
  >>=-eq-err (err x) next h = inl (cc)
  >>=-eq-err (ok value) next h = inr (value, refl, h)

  -- Inversion of a chain of two calls that returned.
  pub >>=-eq-ok :
      (call : Result E A) (next : A → Result E B) {b : B}
      → (call >>= next) ≡ ok b
      → (value : A) × (call ≡ ok value) × (next value ≡ ok b)
  >>=-eq-ok (err raised) next h = cc
  >>=-eq-ok (ok value) next h = (value, refl, h)
