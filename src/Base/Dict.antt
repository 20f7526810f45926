-- ===== src/Base/Dict.antt =====
-- Python's `dict` as an association list in insertion order.
use mathlib.Core.Path.{◌≡◌, refl, ap₂}
use licitaciones_mcp.Base.Result.{some-injective}
use licitaciones_mcp.Base.Lists.{Any, here, there}
use mathlib.Core.Bool.{Bool, true, false, ◌&&◌, ◌||◌}
use mathlib.Core.Logic.{inl, inr, ◌↔◌}
use mathlib.Core.Option.{Option, none, some}
use mathlib.Core.List.{List, [], ◌∷◌}
use native.Mathlib.Omega.{arith}
use licitaciones_mcp.Base.Tests.{if◌then◌else◌, Bool-cases}
use licitaciones_mcp.Base.Equality.{Eq, ◌==◌, contains, Distinct}

abbrev pub Dict {ℓ κ} : Type ℓ → Type κ → Type (ℓ ⊔ κ)
Dict K V = List (K × V)

abbrev pub keys {ℓ κ} : {K : Type ℓ} {V : Type κ} → Dict K V → List K
keys [] = []
keys ((k, _) ∷ d) = k ∷ keys d

module _ {ℓ κ} {K : Type ℓ} {V : Type κ} ⦃e : Eq K⦄ where
  -- `d.get(k)`
  unfoldable pub lookup : K → Dict K V → Option V
  lookup k [] = none
  lookup k ((j, v) ∷ d) = if j == k then some v else lookup k d

  -- `d[k] = v`
  unfoldable pub insert : K → V → Dict K V → Dict K V
  insert k v [] = (k, v) ∷ []
  insert k v ((j, w) ∷ d) = if j == k then (k, v) ∷ d else (j, w) ∷ insert k v d

  -- `del d[k]`
  unfoldable pub erase : K → Dict K V → Dict K V
  erase k [] = []
  erase k ((j, w) ∷ d) = let rest = erase k d in if j == k then rest else (j, w) ∷ rest

  pub lookup-insert :
      (k j : K) (v : V) (d : Dict K V)
      → lookup j (insert k v d) ≡ (if k == j then some v else lookup j d)
  unfolding lookup insert
  lookup-insert k j v [] = refl
  lookup-insert k j v ((i, w) ∷ d) =
      ground (arith, e.beq_iff k j, e.beq_iff i k, e.beq_iff i j, lookup-insert k j v d)

  pub lookup-erase :
      (k j : K) (d : Dict K V) → lookup j (erase k d) ≡ (if k == j then none else lookup j d)
  unfolding lookup erase
  lookup-erase k j [] = ground arith
  lookup-erase k j ((i, w) ∷ d) =
      ground (arith, e.beq_iff k j, e.beq_iff i k, e.beq_iff i j, lookup-erase k j d)

  -- What holds of every entry holds of an entry that is found.
  unfoldable pub every_entry : (K → V → Bool) → Dict K V → Bool
  every_entry p [] = true
  every_entry p ((k, v) ∷ d) = p k v && every_entry p d

  pub every_entry_found :
      (p : K → V → Bool) (k : K) (v : V) (d : Dict K V)
      → every_entry p d ≡ true
      → lookup k d ≡ some v
      → p k v ≡ true
  unfolding every_entry lookup
  every_entry_found p k v [] h f = cc
  every_entry_found p k v ((j, w) ∷ d) h f =
      ground (arith, e.beq_iff j k, every_entry_found p k v d)

  pub contains-keys-insert :
      (k j : K) (v : V) (d : Dict K V)
      → contains (keys (insert k v d)) j ≡ (k == j || contains (keys d) j)
  unfolding insert contains
  contains-keys-insert k j v [] = ground (arith, e.beq_iff k j, e.beq_iff j k)
  contains-keys-insert k j v ((i, w) ∷ d) = ground (
    arith,
    e.beq_iff i k,
    e.beq_iff k j,
    e.beq_iff j k,
    e.beq_iff j i,
    contains-keys-insert k j v d,
  )

  pub insert-Distinct :
      (k : K) (v : V) (d : Dict K V) → Distinct (keys d) → Distinct (keys (insert k v d))
  unfolding insert contains
  insert-Distinct k v [] h = (refl, tt)
  insert-Distinct k v ((i, w) ∷ d) h =
      ground (
        arith,
        e.beq_iff i k,
        e.beq_iff k i,
        contains-keys-insert k i v d,
        insert-Distinct k v d h.1,
      )

  -- A predicate of the entries.
  abbrev pub AllEntries {μ} : (K → V → Type μ) → Dict K V → Type μ
  AllEntries P [] = Unit
  AllEntries P ((k, v) ∷ d) = P k v × AllEntries P d

  pub insert-AllEntries {μ} :
      (P : K → V → Type μ) (k : K) (v : V) (d : Dict K V)
      → P k v
      → AllEntries P d
      → AllEntries P (insert k v d)
  unfolding insert
  insert-AllEntries P k v [] p h = (p, tt)
  insert-AllEntries P k v ((i, w) ∷ d) p h = elim (Bool-cases (i == k)) [
    | inl same ↦ rw same (p, h.1)
    | inr other ↦ rw other (h.0, insert-AllEntries P k v d p h.1)
  ]

  pub contains-keys : (k : K) (d : Dict K V) → (contains (keys d) k ≡ false) ↔ (lookup k d ≡ none)
  unfolding contains lookup
  contains-keys k [] = (λ h. refl, λ h. refl)
  contains-keys k ((j, v) ∷ d) = (
    λ h. ground (arith, e.beq_iff j k, e.beq_iff k j, (contains-keys k d).0),
    λ h. ground (arith, e.beq_iff j k, e.beq_iff k j, (contains-keys k d).1),
  )

  pub lookup-Any : (k : K) (v : V) (d : Dict K V) → lookup k d ≡ some v → Any (λ x. x ≡ (k, v)) d
  unfolding lookup
  lookup-Any k v [] h = absurd (cc)
  lookup-Any k v ((j, w) ∷ d) h = elim (Bool-cases (j == k)) [
    | inl same ↦ here (ap₂ (λ i u. (i, u)) ((e.beq_iff j k).0 same) (some-injective (rw same at h)))
    | inr other ↦ there (lookup-Any k v d (rw other at h))
  ]
