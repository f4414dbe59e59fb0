-- ===== src/Pagination/Fallible.antt =====
-- A result or the error of a remote call.
use go_clockify.Base.{◌≡◌, refl, ◌⊎◌, inl, inr}

pub data Fallible {ℓ κ} (E : Type ℓ) (A : Type κ) : Type (ℓ ⊔ κ) where
  ok : A → Fallible E A
  err : E → Fallible E A

pub Fallible-cases {ℓ} :
    {E A : Type ℓ} (r : Fallible E A) → ((e : E) × (r ≡ err e)) ⊎ ((a : A) × (r ≡ ok a))
Fallible-cases (ok a) = inr (a, refl)
Fallible-cases (err e) = inl (e, refl)
