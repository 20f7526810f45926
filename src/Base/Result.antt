-- ===== src/Base/Result.antt =====
-- Code that may raise: the error is a value.
use mathlib.Core.Path.{◌≡◌, refl}
use mathlib.Core.Logic.{◌⊎◌, inl, inr}
use mathlib.Core.Bool.{Bool, true, false}
use mathlib.Core.Option.{Option, none, some}
use licitaciones_mcp.Base.Tests.{if◌then◌else◌}

pub data Result {ℓ κ} (E : Type ℓ) (A : Type κ) : Type (ℓ ⊔ κ) where
  ok : A → Result E A
  raised : E → Result E A

module _ {ℓ κ μ} {E : Type ℓ} {A : Type κ} {B : Type μ} where
  infixl 5 ◌>>=◌
  abbrev pub ◌>>=◌ : Result E A → (A → Result E B) → Result E B
  ok a >>= f = f a
  raised e >>= f = raised e

  -- Inversion of a chain that returns.
  pub >>=-eq-ok :
      (first : Result E A) (next : A → Result E B) {value : B}
      → (first >>= next) ≡ ok value
      → (a : A) × (first ≡ ok a) × (next a ≡ ok value)
  >>=-eq-ok (ok a) next returned = (a, refl, returned)
  >>=-eq-ok (raised e) next returned = cc

-- To split on a computed result and keep the equation.
pub Result-cases {ℓ κ} :
    {E : Type ℓ} {A : Type κ} (r : Result E A) → ((a : A) × (r ≡ ok a)) ⊎ ((e : E) × (r ≡ raised e))
Result-cases (ok a) = inl (a, refl)
Result-cases (raised e) = inr (e, refl)

pub ok-injective {ℓ κ} :
    {E : Type ℓ} {A : Type κ} {a b : A} → ◌≡◌ {A = Result E A} (ok a) (ok b) → a ≡ b
ok-injective e = cc

pub some-injective {ℓ} : {A : Type ℓ} {a b : A} → some a ≡ some b → a ≡ b
some-injective e = cc

-- Code that returns nothing under a guard, and has returned something.
pub unguarded {ℓ κ} :
    {E : Type ℓ} {A : Type κ} (guard : Bool) (r : Result E (Option A)) {a : A}
    → (if guard then ok none else r) ≡ ok (some a)
    → (guard ≡ false) × (r ≡ ok (some a))
unguarded true r e = absurd (cc)
unguarded false r e = (refl, e)
