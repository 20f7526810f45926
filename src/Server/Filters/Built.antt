-- ===== src/Server/Filters/Built.antt =====
-- The filters that `_build_filters` returns.
use licitaciones_mcp.Base.{
  ℕ, ◌≤◌, ◌≡◌, refl, ◌⊎◌, Option, List, [], ◌∷◌, ◌++◌, All, arith, inl, inr, Bool-cases, contains,
  Distinct, Distinct-snoc, Eq, list_eq, nat_eq,
}
use licitaciones_mcp.Base.Int.{ℤ, pos, negsuc}
use licitaciones_mcp.Base.Result.{Result, ok, raised, Result-cases}
use licitaciones_mcp.Base.Text.{Text}
use licitaciones_mcp.Base.Unicode.{Unicode}
use licitaciones_mcp.Core.Countries.{CountryError, normalize_country_code}
use licitaciones_mcp.Core.Models.{TenderFilters, IsBounded, source_eq, status_eq}
use licitaciones_mcp.Core.Normalization.Codes.{IsCpv}
use licitaciones_mcp.Core.Normalization.CpvCodes.{normalize_cpv_codes_lem}
use licitaciones_mcp.Core.Parsing.{Readers}
use licitaciones_mcp.Server.Filters.{
  Request, clamp, parse_from, parse_statuses, parse_sources, filters_for, build_filters,
}
use licitaciones_mcp.Storage.Records.{source_of_value, status_of_value}

clamp_bounds :
    (low high : ℕ) (n : ℤ) → low ≤ high → (low ≤ clamp low high n) × (clamp low high n ≤ high)
unfolding clamp
clamp_bounds low high (pos n) h = omega arith
clamp_bounds low high (negsuc n) h = omega arith

module _ {A : Type 0} ⦃e : Eq A⦄ (parse : Text → Result Text A) where
  parse_from-Distinct :
      (result : List A) (values : List Text)
      → Distinct result
      → Distinct (parse_from parse result values)
  unfolding parse_from
  parse_from-Distinct result [] d = d
  parse_from-Distinct result (v ∷ vs) d = elim (Result-cases (parse v)) [
    | inr (x, p) ↦ rw (parse_from, p) (parse_from-Distinct result vs d)
    | inl (a, p) ↦ elim (Bool-cases (contains result a)) [
      | inl c ↦ rw (parse_from, p, c) (parse_from-Distinct result vs d)
      | inr c ↦
          rw (parse_from, p, c)
            (parse_from-Distinct (result ++ a ∷ []) vs (Distinct-snoc result a d c))
    ]
  ]

module _ (U : Unicode) (R : Readers) where
  -- What the filters of a request are.
  pub record IsBuilt (f : TenderFilters) : Type 0 where
    pub bounded : IsBounded f
    pub codes_of_eight : All (IsCpv U) f.cpv_codes
    pub codes_once : Distinct f.cpv_codes
    pub statuses_once : Distinct f.statuses
    pub sources_once : Distinct f.sources

  filters_for-IsBuilt : (q : Request) (country : Option Text) → IsBuilt (filters_for U R q country)
  unfolding filters_for parse_statuses parse_sources
  filters_for-IsBuilt q country =
      let codes = normalize_cpv_codes_lem U q.cpv_codes in
      let limit = clamp_bounds 1 500 q.limit (omega arith) in
      let offset = clamp_bounds 0 1000 q.offset (omega arith) in
      record {
        bounded = record { limit_low = limit.0; limit_high = limit.1; offset_high = offset.1 };
        codes_of_eight = codes.1;
        codes_once = codes.0;
        statuses_once = parse_from-Distinct (λ v. status_of_value (U.lower v)) [] q.statuses tt;
        sources_once = parse_from-Distinct (λ v. source_of_value (U.lower v)) [] q.sources tt;
      }

  abbrev pub Outcome : Request → Type 0
  Outcome q =
      ((f : TenderFilters) × (build_filters U R q ≡ ok f) × IsBuilt f)
      ⊎ ((e : CountryError) × (normalize_country_code U q.country ≡ raised e)
          × (build_filters U R q ≡ raised e))

  -- Whatever the limit and the offset of a request, negative ones too: either its filters are
  -- built, within their bounds, with CPV codes of eight digits and no code, status or source twice,
  -- or the country is not supported and the build raises.
  pub build_filters_lem : (q : Request) → Outcome q
  unfolding build_filters
  build_filters_lem q = elim (Result-cases (normalize_country_code U q.country)) [
    | inl (country, e) ↦ inl (filters_for U R q country, rw e refl, filters_for-IsBuilt q country)
    | inr (x, e) ↦ inr (x, e, rw e refl)
  ]
