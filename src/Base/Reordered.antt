-- ===== src/Base/Reordered.antt =====
-- A list in another order, as a row of steps, for elements of any kind.
use mathlib.Core.List.{List, ◌∷◌}
use mathlib.Core.Path.{◌≡◌, refl, ap, ◌∙◌}
use mathlib.Core.Bool.{Bool}
use native.Mathlib.Omega.{arith}
use Prim.Native.Nat.{suc}
use licitaciones_mcp.Base.Lists.{length, keep, All}

module _ {ℓ} {A : Type ℓ} where
  pub data Reordered : List A → List A → Type ℓ where
    same : (xs : List A) → Reordered xs xs
    later : (x : A) {xs ys : List A} → Reordered xs ys → Reordered (x ∷ xs) (x ∷ ys)
    swapped : (x y : A) (xs : List A) → Reordered (x ∷ y ∷ xs) (y ∷ x ∷ xs)
    chained : {xs ys zs : List A} → Reordered xs ys → Reordered ys zs → Reordered xs zs

  pub All-Reordered {κ} : (P : A → Type κ) {xs ys : List A} → Reordered xs ys → All P xs → All P ys
  All-Reordered P (same xs) h = h
  All-Reordered P (later x r) h = (h.0, All-Reordered P r h.1)
  All-Reordered P (swapped x y xs) h = (h.1.0, (h.0, h.1.1))
  All-Reordered P (chained r s) h = All-Reordered P s (All-Reordered P r h)

  pub length-Reordered : {xs ys : List A} → Reordered xs ys → length xs ≡ length ys
  length-Reordered (same xs) = refl
  length-Reordered (later x r) = ap suc (length-Reordered r)
  length-Reordered (swapped x y xs) = refl
  length-Reordered (chained r s) = length-Reordered r ∙ length-Reordered s

  pub length-keep-Reordered :
      (p : A → Bool) {xs ys : List A} → Reordered xs ys → length (keep p xs) ≡ length (keep p ys)
  unfolding keep
  length-keep-Reordered p (same xs) = refl
  length-keep-Reordered p (later x r) = ground (arith, length-keep-Reordered p r)
  length-keep-Reordered p (swapped x y xs) = ground arith
  length-keep-Reordered p (chained r s) = length-keep-Reordered p r ∙ length-keep-Reordered p s
