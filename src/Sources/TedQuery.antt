-- ===== src/Sources/TedQuery.antt =====
-- `build_ted_search_payload` of sources/ted.py.
pub mod Country
use licitaciones_mcp.Base.{
  ℕ, min, max, ◌≡◌, Bool, true, false, not, Option, none, some, List, [], ◌∷◌, ◌++◌, map, any, eqb,
  non_empty, if◌then◌else◌, list_eq, nat_eq,
}
use licitaciones_mcp.Base.Result.{Result, ok, raised, ◌>>=◌}
use licitaciones_mcp.Base.Text.{Text, codes, join, occurs_in}
use licitaciones_mcp.Base.Unicode.{Unicode}
use licitaciones_mcp.Core.Models.{TenderFilters, or_empty}
use licitaciones_mcp.Core.Normalization.{normalize_cpv_codes, listed}
use licitaciones_mcp.Core.Countries.{CountryError, unsupported, ted_country_code}
use licitaciones_mcp.Core.Scoring.{given}

unfoldable pub ted_fields : List Text
ted_fields =
    codes "publication-number"
    ∷ codes "notice-title"
    ∷ codes "buyer-name"
    ∷ codes "buyer-identifier"
    ∷ codes "buyer-country"
    ∷ codes "notice-type"
    ∷ codes "procedure-type"
    ∷ codes "contract-nature"
    ∷ codes "publication-date"
    ∷ codes "deadline"
    ∷ codes "deadline-receipt-tenders"
    ∷ codes "place-of-performance"
    ∷ codes "place-of-performance-country"
    ∷ codes "classification-cpv"
    ∷ codes "estimated-value"
    ∷ codes "tender-value"
    ∷ codes "total-value"
    ∷ codes "winner-name"
    ∷ codes "winner-identifier"
    ∷ codes "links"
    ∷ []

pub record SearchPayload : Type 0 where
  pub query : Text
  pub fields : List Text
  pub scope : Text
  pub page : ℕ
  pub limit : ℕ

-- `x or y` on numbers
abbrev or_number : Option ℕ → ℕ → ℕ
or_number none other = other
or_number (some n) other = if eqb n 0 then other else n

country_clause : Text → Text
country_clause country = codes "buyer-country=" ++ country

-- The `if` that adds the clause of the country.
unfoldable pub with_country : Text → List Text → List Text
unfolding country_clause
with_country country parts =
    if any (λ part. occurs_in (codes "buyer-country") part) parts
    then parts
    else parts ++ country_clause country ∷ []

module _ (U : Unicode) where
  unfoldable pub query_parts : TenderFilters → List Text
  query_parts f =
      (if given f.text then or_empty f.text ∷ [] else [])
      ++ map (λ cpv. codes "classification-cpv=" ++ cpv)
          (normalize_cpv_codes U (listed f.cpv_codes))
      ++ f.regions
      ++ (if non_empty f.notice_types
          then (codes "notice-type IN (" ++ join (codes ",") f.notice_types ++ codes ")") ∷ []
          else [])

  pub payload : TenderFilters → ℕ → Option ℕ → Text → SearchPayload
  unfolding with_country query_parts ted_fields
  payload f page limit country = record {
    query = join (codes " AND ") (with_country country (query_parts f));
    fields = ted_fields;
    scope = codes "ALL";
    page = max 1 page;
    limit = max 1 (min (or_number limit f.limit) 100);
  }

  -- `ted_country_code(...)` gives `None`: the second `ValueError`.
  for_country : TenderFilters → ℕ → Option ℕ → Option Text → Result CountryError SearchPayload
  unfolding payload
  for_country f page limit none = raised (unsupported (or_empty f.country))
  for_country f page limit (some country) = ok (payload f page limit country)

  unfoldable pub build_ted_search_payload :
      TenderFilters → ℕ → Option ℕ → Result CountryError SearchPayload
  unfolding for_country
  build_ted_search_payload f page limit =
      ted_country_code U (if given f.country then f.country else some (codes "ES"))
      >>= for_country f page limit
