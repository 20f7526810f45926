-- ===== src/Base/Equality.antt =====
-- Python's `==` and `in`, for every type whose equality is a Boolean test.
use Prim.Native.Nat.{ℕ}
use mathlib.Core.Path.{◌≡◌, refl, ap}
use mathlib.Core.Logic.{◌↔◌}
use mathlib.Core.Bool.{Bool, true, false, ◌&&◌, ◌||◌}
use mathlib.Core.Option.{Option, none, some}
use mathlib.Core.List.{List, [], ◌∷◌, ◌++◌}
use native.Mathlib.Omega.{arith}
use licitaciones_mcp.Base.Tests.{eqb}

pub record Eq {ℓ} (A : Type ℓ) : Type ℓ where
  pub beq : A → A → Bool
  pub beq_iff : (x y : A) → (beq x y ≡ true) ↔ (x ≡ y)

pub eqb_iff : (m n : ℕ) → (eqb m n ≡ true) ↔ (m ≡ n)
eqb_iff m n = ground arith

instance abbrev pub nat_eq : Eq ℕ
nat_eq = record { beq = eqb; beq_iff = eqb_iff }

infix 50 ◌==◌
abbrev pub ◌==◌ {ℓ} : {A : Type ℓ} ⦃test : Eq A⦄ → A → A → Bool
◌==◌ ⦃test⦄ = test.beq

pub dec_beq {ℓ} : {A : Type ℓ} {a b : A} → Dec (a ≡ b) → Bool
dec_beq (yes _) = true
dec_beq (no _) = false

pub dec_beq_iff {ℓ} : {A : Type ℓ} {a b : A} (d : Dec (a ≡ b)) → (dec_beq d ≡ true) ↔ (a ≡ b)
unfolding dec_beq
dec_beq_iff (yes p) = (λ _. p, λ _. refl)
dec_beq_iff (no n) = (λ h. cc, λ p. absurd (n p))

-- The test of an enumeration, from its decision.
abbrev pub eq_of_dec {ℓ} : {A : Type ℓ} → Discrete A → Eq A
unfolding dec_beq
eq_of_dec d = record { beq = λ a b. dec_beq (d a b); beq_iff = λ a b. dec_beq_iff (d a b) }

module _ {ℓ} {A : Type ℓ} ⦃e : Eq A⦄ where
  pub eq_self : (a : A) → (a == a) ≡ true
  eq_self a = (e.beq_iff a a).1 refl

  -- `a in xs`
  unfoldable pub contains : List A → A → Bool
  contains [] a = false
  contains (x ∷ xs) a = a == x || contains xs a

  pub list_beq : List A → List A → Bool
  list_beq [] [] = true
  list_beq (x ∷ xs) (y ∷ ys) = x == y && list_beq xs ys
  list_beq _ _ = false

  list_beq_to : (xs ys : List A) → list_beq xs ys ≡ true → xs ≡ ys
  unfolding list_beq
  list_beq_to [] [] h = refl
  list_beq_to [] (y ∷ ys) h = cc
  list_beq_to (x ∷ xs) [] h = cc
  list_beq_to (x ∷ xs) (y ∷ ys) h = ground (arith, e.beq_iff x y, list_beq_to xs ys)

  list_beq_self : (xs : List A) → list_beq xs xs ≡ true
  unfolding list_beq
  list_beq_self [] = refl
  list_beq_self (x ∷ xs) = ground (arith, e.beq_iff x x, list_beq_self xs)

  pub list_beq_iff : (xs ys : List A) → (list_beq xs ys ≡ true) ↔ (xs ≡ ys)
  list_beq_iff xs ys = (list_beq_to xs ys, λ path. rw path (list_beq_self ys))

  instance unfoldable pub list_eq : Eq (List A)
  unfolding list_beq
  list_eq = record { beq = list_beq; beq_iff = list_beq_iff }

  pub option_beq : Option A → Option A → Bool
  option_beq none none = true
  option_beq (some a) (some b) = a == b
  option_beq _ _ = false

  pub option_beq_iff : (a b : Option A) → (option_beq a b ≡ true) ↔ (a ≡ b)
  unfolding option_beq
  option_beq_iff none none = (λ _. refl, λ _. refl)
  option_beq_iff none (some b) = (λ h. cc, λ h. cc)
  option_beq_iff (some a) none = (λ h. cc, λ h. cc)
  option_beq_iff (some a) (some b) =
      (λ same. ap some ((e.beq_iff a b).0 same), λ path. (e.beq_iff a b).1 (ground arith))

  instance unfoldable pub option_eq : Eq (Option A)
  unfolding option_beq
  option_eq = record { beq = option_beq; beq_iff = option_beq_iff }

  pub contains-append :
      (xs ys : List A) (a : A) → contains (xs ++ ys) a ≡ (contains xs a || contains ys a)
  unfolding contains
  contains-append [] ys a = refl
  contains-append (x ∷ xs) ys a = ground (arith, contains-append xs ys a)

  -- No element is listed twice.
  abbrev pub Distinct : List A → Type 0
  Distinct [] = Unit
  Distinct (x ∷ xs) = (contains xs x ≡ false) × Distinct xs

  pub Distinct-snoc :
      (xs : List A) (a : A) → Distinct xs → contains xs a ≡ false → Distinct (xs ++ a ∷ [])
  unfolding contains
  Distinct-snoc [] a d h = (refl, tt)
  Distinct-snoc (x ∷ xs) a d h =
      ground
        (arith, contains-append xs (a ∷ []) x, Distinct-snoc xs a d.1, e.beq_iff a x, e.beq_iff x a)

  pub Distinct-middle :
      (xs : List A) (a : A) (ys : List A) → Distinct (xs ++ a ∷ ys) → contains xs a ≡ false
  unfolding contains
  Distinct-middle [] a ys d = refl
  Distinct-middle (x ∷ xs) a ys d = ground (
    arith,
    contains-append xs (a ∷ ys) x,
    Distinct-middle xs a ys d.1,
    e.beq_iff a x,
    e.beq_iff x a,
  )
