-- ===== src/Prelude/Results.antt =====
-- `Result<T, E>` and the `?` operator, which a `do` block writes as `←`.
use mathlib.Core.Path.{◌≡◌, refl}
use mathlib.Core.Logic.{◌⊎◌, inl, inr}
use native.Mathlib.Omega.{arith}

pub data Result {ℓ κ} (E : Type ℓ) (A : Type κ) : Type (ℓ ⊔ κ) where
  err : E → Result E A
  ok : A → Result E A

module _ {ℓ κ} {E : Type ℓ} {A : Type κ} where
  pub Result-cases : (r : Result E A) → ((e : E) × (r ≡ err e)) ⊎ ((a : A) × (r ≡ ok a))
  Result-cases (err e) = inl (e, refl)
  Result-cases (ok a) = inr (a, refl)

  pub ok_injective : {x y : A} → ◌≡◌ {A = Result E A} (ok x) (ok y) → x ≡ y
  ok_injective p = cc

  pub err-ne-ok : {e : E} {a : A} → ◌≡◌ {A = Result E A} (err e) (ok a) → ⊥
  err-ne-ok p = cc

infixl 5 ◌>>=◌
abbrev pub ◌>>=◌ {ℓ κ μ} :
    {E : Type ℓ} {A : Type κ} {B : Type μ} (r : Result E A) (next : A → Result E B) → Result E B
◌>>=◌ (err e) next = err e
◌>>=◌ (ok a) next = next a

-- A chain that succeeds has a first step that succeeds.
pub bind_ok {ℓ κ μ} :
    {E : Type ℓ} {A : Type κ} {B : Type μ} {b : B} (r : Result E A) (next : A → Result E B)
    → ◌≡◌ {A = Result E B} (r >>= next) (ok b)
    → (first : A) × (r ≡ ok first) × (next first ≡ ok b)
bind_ok (err e) next h = absurd (ground arith)
bind_ok (ok a) next h = (a, refl, h)
