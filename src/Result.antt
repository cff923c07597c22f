-- ===== src/Result.antt =====
-- The exceptions that the repositories raise, and results that may be one of them.
use shared_integration.Prelude.{String, ◌≡◌, ◌⊎◌, inl, inr, refl}

pub data Error : Type 0 where
  key_error : String → Error
  value_error : String → Error
  integrity_error : Error
  runtime_error : String → Error

pub data Result {ℓ} (A : Type ℓ) : Type ℓ where
  ok : A → Result A
  err : Error → Result A

infixl 5 ◌>>=◌
abbrev pub ◌>>=◌ {ℓ κ} : {A : Type ℓ} {B : Type κ} → Result A → (A → Result B) → Result B
ok a >>= f = f a
err e >>= f = err e

pub Result-cases {ℓ} :
    {A : Type ℓ} (r : Result A) → ((e : Error) × (r ≡ err e)) ⊎ ((a : A) × (r ≡ ok a))
Result-cases (ok a) = inr (a, refl)
Result-cases (err e) = inl (e, refl)
