-- ===== src/Core/Normalization/Codes.antt =====
-- The CPV codes and prefixes of core/normalization.py: the shape of an accepted value, and the
-- lists of distinct values that the two list functions build.
use licitaciones_mcp.Base.{
  ℕ, ◌≡◌, sym, ◌∙◌, Bool, true, false, ◌||◌, Option, none, some, List, [], ◌∷◌, ◌++◌, All,
  All-append, arith, any, length, non_empty, inl, inr, Bool-cases, Option-cases, ◌==◌, list_eq,
  option_eq, nat_eq, contains, contains-append, Distinct, Distinct-snoc, Distinct-middle,
  append_assoc, append-nil,
}
use licitaciones_mcp.Base.Text.{Text, strip, text_iff}
use licitaciones_mcp.Base.Unicode.{Unicode}
use licitaciones_mcp.Core.Normalization.{collect, cpv_here, cpv_search, every, normalize_cpv_code}

contains_one : (c d : Text) → contains (d ∷ []) c ≡ (c == d)
unfolding contains
contains_one c d = ground arith

-- The loop over raw values, for any normaliser whose values have a character.
module _ (normalize : Text → Option Text)
    (filled : (raw found : Text) → normalize raw ≡ some found → non_empty found ≡ true) where
  pub collect-Distinct :
      (raws acc : List Text) → Distinct acc → Distinct (collect normalize raws acc acc)
  unfolding collect
  collect-Distinct [] acc d = d
  collect-Distinct (raw ∷ raws) acc d = elim (Option-cases (normalize raw)) [
    | inl e ↦ rw e (collect-Distinct raws acc d)
    | inr (c, e) ↦ elim (Bool-cases (contains acc c)) [
      | inl old ↦ rw (e, filled raw c e, old) (collect-Distinct raws acc d)
      | inr new ↦
          rw (e, filled raw c e, new)
            (collect-Distinct raws (acc ++ c ∷ []) (Distinct-snoc acc c d new))
    ]
  ]

  abbrev pub finds : Text → Text → Bool
  finds c raw = normalize raw == some c

  pub contains-collect :
      (raws acc : List Text) (c : Text)
      → contains (collect normalize raws acc acc) c ≡ (contains acc c || any (finds c) raws)
  unfolding collect any option_eq
  contains-collect [] acc c = ground arith
  contains-collect (raw ∷ raws) acc c = elim (Option-cases (normalize raw)) [
    | inl e ↦ rw e (contains-collect raws acc c)
    | inr (d, e) ↦ elim (Bool-cases (contains acc d)) [
      | inl old ↦
          rw (e, filled raw d e, old) (ground (arith, contains-collect raws acc c, text_iff d c))
      | inr new ↦
          rw (e, filled raw d e, new)
            (ground (
              arith,
              contains-collect raws (acc ++ d ∷ []) c,
              contains-append acc (d ∷ []) c,
              contains_one c d,
              text_iff d c,
              text_iff c d,
            ))
    ]
  ]

  pub collect-All :
      (P : Text → Type 0)
      → ((raw found : Text) → normalize raw ≡ some found → P found)
      → (raws acc : List Text) → All P acc
      → All P (collect normalize raws acc acc)
  unfolding collect
  collect-All P h [] acc k = k
  collect-All P h (raw ∷ raws) acc k = elim (Option-cases (normalize raw)) [
    | inl e ↦ rw e (collect-All P h raws acc k)
    | inr (c, e) ↦ elim (Bool-cases (contains acc c)) [
      | inl old ↦ rw (e, filled raw c e, old) (collect-All P h raws acc k)
      | inr new ↦
          rw (e, filled raw c e, new)
            (collect-All P h raws (acc ++ c ∷ []) (All-append P acc (c ∷ []) k (h raw c e, tt)))
    ]
  ]

  pub collect_fixed :
      (raws acc : List Text)
      → All (λ c. normalize c ≡ some c) raws
      → Distinct (acc ++ raws)
      → collect normalize raws acc acc ≡ acc ++ raws
  unfolding collect
  collect_fixed [] acc h d = sym (append-nil acc)
  collect_fixed (c ∷ raws) acc h d =
      let fresh : contains acc c ≡ false = Distinct-middle acc c raws d in
      rw (h.0, filled c c h.0, fresh)
        (collect_fixed raws (acc ++ c ∷ []) h.1 (rw (append_assoc acc (c ∷ []) raws) d)
          ∙ append_assoc acc (c ∷ []) raws)

module _ (U : Unicode) where
  -- Eight decimal digits.
  abbrev pub IsCpv : Text → Type 0
  IsCpv c = (length c ≡ 8) × All (λ d. U.is_decimal d ≡ true) c

  cpv_here-IsCpv : (before : Option ℕ) (s c : Text) → cpv_here U before s ≡ some c → IsCpv c
  unfolding cpv_here every
  cpv_here-IsCpv before (a1 ∷ a2 ∷ a3 ∷ a4 ∷ a5 ∷ a6 ∷ a7 ∷ a8 ∷ rest) c e = ground arith
  cpv_here-IsCpv before _ c e = cc

  cpv_search-IsCpv : (before : Option ℕ) (s c : Text) → cpv_search U before s ≡ some c → IsCpv c
  unfolding cpv_search
  cpv_search-IsCpv before [] c e = cc
  cpv_search-IsCpv before (d ∷ s) c e = elim (Option-cases (cpv_here U before (d ∷ s))) [
    | inl f ↦ cpv_search-IsCpv (some d) s c (rw f at e)
    | inr (found, f) ↦ cpv_here-IsCpv before (d ∷ s) c (ground arith)
  ]

  pub normalize_cpv_code-IsCpv : (v c : Text) → normalize_cpv_code U v ≡ some c → IsCpv c
  unfolding normalize_cpv_code
  normalize_cpv_code-IsCpv v c e = cpv_search-IsCpv none (strip v) c e
