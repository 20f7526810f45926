-- ===== src/Base/Sort.antt =====
-- Python's `sorted`, which is stable: `before x y` says that `x`, which stands first in the input,
-- may stay in front of `y`.
use Prim.Native.Nat.{ℕ, zero, suc}
use mathlib.Core.Path.{◌≡◌, refl, ap}
use mathlib.Core.Logic.{◌⊎◌, inl, inr}
use mathlib.Core.Bool.{Bool, true, false}
use mathlib.Core.List.{List, [], ◌∷◌, Perm}
use mathlib.Core.List.Perm
use native.Mathlib.Omega.{arith}
use licitaciones_mcp.Base.Tests.{if◌then◌else◌, Bool-cases}
use licitaciones_mcp.Base.Lists.{length, All, Any, here, there, All_any, take, drop, All-take}

module _ {ℓ} {A : Type ℓ} (before : A → A → Bool) where
  insert_sorted : A → List A → List A
  insert_sorted x [] = x ∷ []
  insert_sorted x (y ∷ ys) = if before x y then x ∷ y ∷ ys else y ∷ insert_sorted x ys

  unfoldable pub sorted : List A → List A
  unfolding insert_sorted
  sorted [] = []
  sorted (x ∷ xs) = insert_sorted x (sorted xs)

  -- Each element may stand before all that follow it.
  abbrev pub IsSorted : List A → Type 0
  IsSorted [] = Unit
  IsSorted (x ∷ xs) = All (λ y. before x y ≡ true) xs × IsSorted xs

  insert_sorted-perm : (x : A) (ys : List A) → Perm (insert_sorted x ys) (x ∷ ys)
  unfolding insert_sorted
  insert_sorted-perm x [] = Perm.refl _
  insert_sorted-perm x (y ∷ ys) = elim (Bool-cases (before x y)) [
    | inl e ↦ rw e (Perm.refl _)
    | inr e ↦ rw e (Perm.trans (Perm.cons y (insert_sorted-perm x ys)) (Perm.swap x y ys))
  ]

  pub sorted-perm : (xs : List A) → Perm (sorted xs) xs
  unfolding sorted
  sorted-perm [] = Perm.refl _
  sorted-perm (x ∷ xs) =
      Perm.trans (insert_sorted-perm x (sorted xs)) (Perm.cons x (sorted-perm xs))

  length-insert_sorted : (x : A) (ys : List A) → length (insert_sorted x ys) ≡ suc (length ys)
  unfolding insert_sorted
  length-insert_sorted x [] = refl
  length-insert_sorted x (y ∷ ys) = ground (arith, length-insert_sorted x ys)

  pub length-sorted : (xs : List A) → length (sorted xs) ≡ length xs
  unfolding sorted
  length-sorted [] = refl
  length-sorted (x ∷ xs) = ground (arith, length-sorted xs, length-insert_sorted x (sorted xs))

  module _ {κ} (P : A → Type κ) where
    insert_sorted-All : (x : A) (ys : List A) → P x → All P ys → All P (insert_sorted x ys)
    unfolding insert_sorted
    insert_sorted-All x [] h k = (h, tt)
    insert_sorted-All x (y ∷ ys) h k = elim (Bool-cases (before x y)) [
      | inl e ↦ rw e (h, k)
      | inr e ↦ rw e (k.0, insert_sorted-All x ys h k.1)
    ]

    pub sorted-All : (xs : List A) → All P xs → All P (sorted xs)
    unfolding sorted
    sorted-All [] k = tt
    sorted-All (x ∷ xs) k = insert_sorted-All x (sorted xs) k.0 (sorted-All xs k.1)

    insert_sorted-Any : (x : A) (ys : List A) → Any P (x ∷ ys) → Any P (insert_sorted x ys)
    unfolding insert_sorted
    insert_sorted-Any x [] h = h
    insert_sorted-Any x (y ∷ ys) (here h) = elim (Bool-cases (before x y)) [
      | inl e ↦ rw e (here h)
      | inr e ↦ rw e (there (insert_sorted-Any x ys (here h)))
    ]
    insert_sorted-Any x (y ∷ ys) (there (here h)) = elim (Bool-cases (before x y)) [
      | inl e ↦ rw e (there (here h))
      | inr e ↦ rw e (here h)
    ]
    insert_sorted-Any x (y ∷ ys) (there (there h)) = elim (Bool-cases (before x y)) [
      | inl e ↦ rw e (there (there h))
      | inr e ↦ rw e (there (insert_sorted-Any x ys (there h)))
    ]

    pub sorted-Any : (xs : List A) → Any P xs → Any P (sorted xs)
    unfolding sorted
    sorted-Any [] h = elim h [ ]
    sorted-Any (x ∷ xs) (here h) = insert_sorted-Any x (sorted xs) (here h)
    sorted-Any (x ∷ xs) (there h) = insert_sorted-Any x (sorted xs) (there (sorted-Any xs h))

  module _ (total : (x y : A) → before x y ≡ false → before y x ≡ true)
      (chain : (x y z : A) → before x y ≡ true → before y z ≡ true → before x z ≡ true) where
    All-chain :
        (x y : A) (ys : List A)
        → before x y ≡ true
        → All (λ z. before y z ≡ true) ys
        → All (λ z. before x z ≡ true) ys
    All-chain x y [] h k = tt
    All-chain x y (z ∷ ys) h k = (chain x y z h k.0, All-chain x y ys h k.1)

    insert_sorted-IsSorted : (x : A) (ys : List A) → IsSorted ys → IsSorted (insert_sorted x ys)
    unfolding insert_sorted
    insert_sorted-IsSorted x [] s = (tt, tt)
    insert_sorted-IsSorted x (y ∷ ys) s = elim (Bool-cases (before x y)) [
      | inl e ↦ rw e ((e, All-chain x y ys e s.0), s)
      | inr e ↦ rw e (
        insert_sorted-All (λ z. before y z ≡ true) x ys (total x y e) s.0,
        insert_sorted-IsSorted x ys s.1,
      )
    ]

    pub sorted-IsSorted : (xs : List A) → IsSorted (sorted xs)
    unfolding sorted
    sorted-IsSorted [] = tt
    sorted-IsSorted (x ∷ xs) = insert_sorted-IsSorted x (sorted xs) (sorted-IsSorted xs)

  pub take-IsSorted : (n : ℕ) (xs : List A) → IsSorted xs → IsSorted (take n xs)
  take-IsSorted zero xs s = tt
  take-IsSorted (suc n) [] s = tt
  take-IsSorted (suc n) (x ∷ xs) s =
      (All-take (λ y. before x y ≡ true) n xs s.0, take-IsSorted n xs s.1)

  pub drop-IsSorted : (n : ℕ) (xs : List A) → IsSorted xs → IsSorted (drop n xs)
  drop-IsSorted zero xs s = s
  drop-IsSorted (suc n) [] s = tt
  drop-IsSorted (suc n) (x ∷ xs) s = drop-IsSorted n xs s.1

  -- An element of a sorted list is among the first ones, or there are that many, and all of them may
  -- stand in front of it.
  pub take-or_later :
      (n : ℕ) (xs : List A) (x : A)
      → IsSorted xs
      → Any (λ y. y ≡ x) xs
      → Any (λ y. y ≡ x) (take n xs)
        ⊎ ((length (take n xs) ≡ n) × All (λ y. before y x ≡ true) (take n xs))
  take-or_later zero xs x s h = inr (refl, tt)
  take-or_later (suc n) [] x s h = elim h [ ]
  take-or_later (suc n) (y ∷ ys) x s (here e) = inl (here e)
  take-or_later (suc n) (y ∷ ys) x s (there h) = elim (take-or_later n ys x s.1 h) [
    | inl found ↦ inl (there found)
    | inr (full, all) ↦ inr (ap suc full, (All_any (λ z. before y z ≡ true) ys x s.0 h, all))
  ]
