-- ===== src/Sources/Placsp/Notice.antt =====
-- `_normalize_placsp_notice_type` of sources/placsp.py.
use licitaciones_mcp.Base.{
  ◌≡◌, refl, ◌⊎◌, inl, inr, Bool, true, false, not, Option, none, some, List, [], ◌∷◌, any,
  if◌then◌else◌, list_eq, nat_eq, contains, Bool-cases,
}
use licitaciones_mcp.Base.Dict.{keys}
use licitaciones_mcp.Base.Text.{Text, codes, occurs_in}
use licitaciones_mcp.Base.Unicode.{Unicode}
use licitaciones_mcp.Core.Catalogs.{placsp_notice_status}
use licitaciones_mcp.Core.Models.{
  TenderStatus, planned, open_, closed, awarded, cancelled, unknown, or_empty,
}
use licitaciones_mcp.Core.Normalization.{normalize_text, fold_text, normalize_status}
use licitaciones_mcp.Core.Scoring.{given}

-- `_STATUS_NOTICE_FALLBACKS.get(status)`
fallback : TenderStatus → Option Text
fallback planned = some (codes "PRE")
fallback open_ = some (codes "PUB")
fallback closed = some (codes "RES")
fallback awarded = some (codes "ADJ")
fallback cancelled = some (codes "ANUL")
fallback unknown = none

-- `any(term in folded for term in terms)`
one_of : Text → List Text → Bool
one_of folded terms = any (λ term. occurs_in term folded) terms

-- The early returns after the one for a code, in their order: the terms, and the code.
unfoldable pub notice_rules : List (List Text × Text)
notice_rules =
    (codes "desierta" ∷ codes "desierto" ∷ [], codes "DES")
    ∷ (codes "anulada" ∷ codes "cancel" ∷ codes "desist" ∷ codes "renuncia" ∷ [], codes "ANUL")
    ∷ (codes "adjudic" ∷ codes "awarded" ∷ [], codes "ADJ")
    ∷ (codes "evaluacion" ∷ codes "pendiente de adjudic" ∷ [], codes "EV")
    ∷ (codes "resuelta" ∷ codes "finalizada" ∷ codes "cerrad" ∷ codes "closed" ∷ [], codes "RES")
    ∷ (codes "anuncio previo" ∷ codes "prior information" ∷ [], codes "PRE")
    ∷ (codes "publicada" ∷ codes "abierta" ∷ codes "open" ∷ codes "licitacion" ∷ [], codes "PUB")
    ∷ []

inferred : List (List Text × Text) → Text → Option Text → Option Text
unfolding one_of
inferred [] folded other = other
inferred ((terms, code) ∷ rules) folded other =
    let rest = inferred rules folded other in if one_of folded terms then some code else rest

module _ (U : Unicode) where
  unfoldable pub normalize_placsp_notice_type : Option Text → Option Text
  unfolding inferred fallback notice_rules
  normalize_placsp_notice_type value =
      let normalized = normalize_text value in
      let code = U.upper (or_empty normalized) in
      if not (given normalized)
      then none
      else if contains (keys placsp_notice_status) code
      then some code
      else inferred notice_rules (fold_text U normalized) (fallback (normalize_status U normalized))

  -- There is no code, or it is one of the catalog.
  abbrev pub IsNotice : Option Text → Type 0
  IsNotice o =
      (o ≡ none)
      ⊎ ((code : Text) × (o ≡ some code) × (contains (keys placsp_notice_status) code ≡ true))

  fallback-IsNotice : (s : TenderStatus) → IsNotice (fallback s)
  unfolding fallback placsp_notice_status contains list_eq
  fallback-IsNotice planned = inr (codes "PRE", refl, refl)
  fallback-IsNotice open_ = inr (codes "PUB", refl, refl)
  fallback-IsNotice closed = inr (codes "RES", refl, refl)
  fallback-IsNotice awarded = inr (codes "ADJ", refl, refl)
  fallback-IsNotice cancelled = inr (codes "ANUL", refl, refl)
  fallback-IsNotice unknown = inl refl

  either-IsNotice :
      (b : Bool) (x y : Option Text) → IsNotice x → IsNotice y → IsNotice (if b then x else y)
  either-IsNotice true x y h k = h
  either-IsNotice false x y h k = k

  abbrev AllCodes : List (List Text × Text) → Type 0
  AllCodes [] = Unit
  AllCodes ((terms, code) ∷ rules) =
      (contains (keys placsp_notice_status) code ≡ true) × AllCodes rules

  inferred-IsNotice :
      (rules : List (List Text × Text)) (folded : Text) (other : Option Text)
      → AllCodes rules
      → IsNotice other
      → IsNotice (inferred rules folded other)
  unfolding inferred
  inferred-IsNotice [] folded other a h = h
  inferred-IsNotice ((terms, code) ∷ rules) folded other a h =
      either-IsNotice (one_of folded terms) (some code) _ (inr (code, refl, a.0))
        (inferred-IsNotice rules folded other a.1 h)

  notice_rules-AllCodes : AllCodes notice_rules
  unfolding notice_rules placsp_notice_status contains list_eq
  notice_rules-AllCodes = (refl, (refl, (refl, (refl, (refl, (refl, (refl, tt)))))))

  known :
      (code : Text) (rest : Option Text)
      → IsNotice rest
      → IsNotice (if contains (keys placsp_notice_status) code then some code else rest)
  known code rest h = elim (Bool-cases (contains (keys placsp_notice_status) code)) [
    | inl e ↦ rw e (inr (code, refl, e))
    | inr e ↦ rw e h
  ]

  -- The notice type of a text is a code of the catalog, or there is none.
  pub normalize_placsp_notice_type-IsNotice :
      (value : Option Text) → IsNotice (normalize_placsp_notice_type value)
  unfolding normalize_placsp_notice_type
  normalize_placsp_notice_type-IsNotice value =
      either-IsNotice (not (given (normalize_text value))) none _ (inl refl) (
        known (U.upper (or_empty (normalize_text value))) _ (
          inferred-IsNotice notice_rules (fold_text U (normalize_text value)) _
            notice_rules-AllCodes (fallback-IsNotice (normalize_status U (normalize_text value)))))
