-- ===== src/Sources/TedQuery/Country.antt =====
-- A TED search stays within a country and within the bounds of a page.
use licitaciones_mcp.Base.{
  ℕ, ◌≤◌, ◌≡◌, refl, Bool, true, false, Option, none, some, List, [], ◌∷◌, ◌++◌, map, any, All,
  All-map, Any, here, there, non_empty, Any-before, Any-after, arith, if◌then◌else◌, list_eq,
  nat_eq,
}
use mathlib.Core.Path.{subst}
use licitaciones_mcp.Base.Result.{ok, >>=-eq-ok, ok-injective}
use licitaciones_mcp.Base.Text.{Text, codes, join, occurs_in}
use licitaciones_mcp.Base.Unicode.{Unicode}
use licitaciones_mcp.Core.Countries.{ted_country_code}
use licitaciones_mcp.Core.Models.{TenderFilters, or_empty}
use licitaciones_mcp.Core.Normalization.{normalize_cpv_codes, listed}
use licitaciones_mcp.Core.Scoring.{given}
use licitaciones_mcp.Sources.TedQuery.{
  SearchPayload, with_country, country_clause, query_parts, payload, for_country,
  build_ted_search_payload,
}

abbrev pub names_country : Text → Bool
names_country part = occurs_in (codes "buyer-country") part

module _ (U : Unicode) where
  -- A part that the user gives, such as the text, speaks of the country itself.
  abbrev pub has_own_country : TenderFilters → Bool
  has_own_country f = any names_country (query_parts U f)

  -- The parts of the query, and the bounds that the API asks for. `code` is the code of the wanted
  -- country, Spain where none is wanted.
  pub record IsBoundedQuery (f : TenderFilters) (p : SearchPayload) : Type 0 where
    pub code : Text
    pub of_country :
        ted_country_code U (if given f.country then f.country else some (codes "ES"))
        ≡ ok (some code)
    pub own_country : has_own_country f ≡ true → p.query ≡ join (codes " AND ") (query_parts U f)
    pub by_code :
        has_own_country f ≡ false
        → p.query ≡ join (codes " AND ") (query_parts U f ++ (codes "buyer-country=" ++ code) ∷ [])
    pub cpvs :
        All
          (λ cpv. Any (λ part. part ≡ (codes "classification-cpv=" ++ cpv)) (query_parts U f))
          (normalize_cpv_codes U (listed f.cpv_codes))
    pub page_low : 1 ≤ p.page
    pub limit_low : 1 ≤ p.limit
    pub limit_high : p.limit ≤ 100

  clauses-Any :
      (clause : Text → Text) (cpvs : List Text)
      → All (λ cpv. Any (λ part. part ≡ clause cpv) (map clause cpvs)) cpvs
  clauses-Any clause [] = tt
  clauses-Any clause (c ∷ cs) = (here refl, All-map (λ cpv m. there m) cs (clauses-Any clause cs))

  query_parts-cpvs :
      (f : TenderFilters)
      → All
          (λ cpv. Any (λ part. part ≡ (codes "classification-cpv=" ++ cpv)) (query_parts U f))
          (normalize_cpv_codes U (listed f.cpv_codes))
  unfolding query_parts
  query_parts-cpvs f =
      All-map
        (λ cpv m.
          Any-before
            (if non_empty f.notice_types
              then (codes "notice-type IN (" ++ join (codes ",") f.notice_types ++ codes ")") ∷ []
              else [])
            (Any-before f.regions
              (Any-after (if given f.text then or_empty f.text ∷ [] else []) m)))
        _ (clauses-Any (λ cpv. codes "classification-cpv=" ++ cpv) _)

  payload-IsBoundedQuery :
      (f : TenderFilters) (page : ℕ) (limit : Option ℕ) (country : Text)
      → ted_country_code U (if given f.country then f.country else some (codes "ES"))
        ≡ ok (some country)
      → IsBoundedQuery f (payload U f page limit country)
  unfolding payload with_country country_clause
  payload-IsBoundedQuery f page limit country found = record {
    code = country;
    of_country = found;
    own_country = λ h. rw h refl;
    by_code = λ h. rw h refl;
    cpvs = query_parts-cpvs f;
    page_low = omega arith;
    limit_low = omega arith;
    limit_high = omega arith;
  }

  from_country :
      (f : TenderFilters) (p : SearchPayload) (page : ℕ) (limit : Option ℕ) (country : Option Text)
      → ted_country_code U (if given f.country then f.country else some (codes "ES")) ≡ ok country
      → for_country U f page limit country ≡ ok p
      → IsBoundedQuery f p
  unfolding for_country
  from_country f p page limit none found h = absurd (cc)
  from_country f p page limit (some country) found h =
      subst (IsBoundedQuery f) (ok-injective h) (payload-IsBoundedQuery f page limit country found)

  -- Every payload that is built asks for the country of the filters, Spain where they name none, by
  -- the clause `buyer-country=` with its code at the end of the query, unless a part that the filters
  -- give speaks of `buyer-country` itself, which then stands alone; it asks for each of the CPV codes
  -- by a clause of its own, for a page from 1 on and for 1 to 100 notices.
  pub build_ted_search_payload-IsBoundedQuery :
      (f : TenderFilters) (page : ℕ) (limit : Option ℕ) (p : SearchPayload)
      → build_ted_search_payload U f page limit ≡ ok p
      → IsBoundedQuery f p
  unfolding build_ted_search_payload
  build_ted_search_payload-IsBoundedQuery f page limit p e =
      let (country, found, built) = >>=-eq-ok _ (for_country U f page limit) e in
      from_country f p page limit country found built
