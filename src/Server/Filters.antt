-- ===== src/Server/Filters.antt =====
-- server/tools.py: `_build_filters`, which makes the filters of a request, with the validation of
-- the class `TenderFilters`.
pub mod Built
use licitaciones_mcp.Base.{
  ℕ, zero, suc, ◌+◌, min, max, Bool, true, false, not, ◌&&◌, Option, none, some, List, [], ◌∷◌,
  ◌++◌, map, non_empty, if◌then◌else◌, ◌==◌, list_eq, nat_eq, contains, Eq,
}
use licitaciones_mcp.Base.Int.{ℤ, pos, negsuc}
use licitaciones_mcp.Base.Result.{Result, ok, raised, ◌>>=◌}
use licitaciones_mcp.Base.Text.{Text, codes}
use licitaciones_mcp.Base.Unicode.{Unicode}
use licitaciones_mcp.Core.Countries.{CountryError, normalize_country_code}
use licitaciones_mcp.Core.Models.{
  TenderFilters, TenderSource, TenderStatus, source_eq, status_eq, OrderBy, Order, QueryMode,
  or_empty, default_filters, max_tender_search_limit, max_tender_search_offset,
}
use licitaciones_mcp.Core.Normalization.{
  normalize_text, normalize_cpv_codes, normalize_cpv_prefixes, RawCodes,
}
use licitaciones_mcp.Core.Parsing.{Readers, RawMoment, missing, written, parse_date}
use licitaciones_mcp.Core.Scoring.{given}
use licitaciones_mcp.Storage.Records.{source_of_value, status_of_value}

-- The arguments of a request. A list that is missing is the empty one.
pub record Request : Type 0 where
  pub text : Option Text
  pub cpv_codes : RawCodes
  pub cpv_prefixes : RawCodes
  pub nuts_codes : List Text
  pub regions : List Text
  pub buyer : Option Text
  pub statuses : List Text
  pub sources : List Text
  pub procedure_types : List Text
  pub contract_types : List Text
  pub notice_types : List Text
  pub dataset_kinds : List Text
  pub only_open : Bool
  pub published_from : Option Text
  pub published_to : Option Text
  pub deadline_from : Option Text
  pub deadline_to : Option Text
  pub min_value : Option ℤ
  pub max_value : Option ℤ
  pub country : Option Text
  pub limit : ℤ
  pub offset : ℤ
  pub order_by : OrderBy
  pub order : Order
  pub query_mode : QueryMode

-- `max(low, min(n, high))`, for a low and a high bound that are not negative
unfoldable pub clamp : ℕ → ℕ → ℤ → ℕ
clamp low high (pos n) = max low (min n high)
clamp low high (negsuc n) = low

abbrev moment_of : Option Text → RawMoment
moment_of none = missing
moment_of (some s) = written s

-- A loop that drops what does not parse, and what is there already.
module _ {A : Type 0} ⦃e : Eq A⦄ (parse : Text → Result Text A) where
  parse_from : List A → List Text → List A
  parse_from result [] = result
  parse_from result (v ∷ vs) = elim (parse v) [
    | raised _ ↦ parse_from result vs
    | ok a ↦ parse_from (if contains result a then result else result ++ a ∷ []) vs
  ]

-- The texts that have a normal form, and what is made of it.
normalized_texts : (Text → Text) → List Text → List Text
normalized_texts shape [] = []
normalized_texts shape (v ∷ vs) =
    let rest = normalized_texts shape vs in
    if given (normalize_text (some v))
    then shape (or_empty (normalize_text (some v))) ∷ rest
    else rest

module _ (U : Unicode) (R : Readers) where
  unfoldable pub parse_statuses : List Text → List TenderStatus
  unfolding parse_from
  parse_statuses values = parse_from (λ v. status_of_value (U.lower v)) [] values

  unfoldable pub parse_sources : List Text → List TenderSource
  unfolding parse_from
  parse_sources values = parse_from (λ v. source_of_value (U.lower v)) [] values

  -- The filters before their country is validated.
  unfoldable pub filters_for : Request → Option Text → TenderFilters
  unfolding clamp parse_statuses parse_sources normalized_texts
  filters_for q country = record default_filters {
    text = normalize_text q.text;
    cpv_codes = normalize_cpv_codes U q.cpv_codes;
    cpv_prefixes = normalize_cpv_prefixes U q.cpv_prefixes;
    nuts_codes = normalized_texts U.upper q.nuts_codes;
    regions = normalized_texts (λ s. s) q.regions;
    buyer = normalize_text q.buyer;
    statuses = parse_statuses q.statuses;
    sources = parse_sources q.sources;
    procedure_types = normalized_texts (λ s. s) q.procedure_types;
    contract_types = normalized_texts (λ s. s) q.contract_types;
    notice_types = normalized_texts U.upper q.notice_types;
    dataset_kinds = normalized_texts U.lower q.dataset_kinds;
    only_open = q.only_open;
    published_from = parse_date R (moment_of q.published_from);
    published_to = parse_date R (moment_of q.published_to);
    deadline_from = parse_date R (moment_of q.deadline_from);
    deadline_to = parse_date R (moment_of q.deadline_to);
    min_value = q.min_value;
    max_value = q.max_value;
    country = country;
    limit = clamp 1 max_tender_search_limit q.limit;
    offset = clamp 0 max_tender_search_offset q.offset;
    order_by = q.order_by;
    order = q.order;
    query_mode = q.query_mode;
  }

  unfoldable pub build_filters : Request → Result CountryError TenderFilters
  unfolding filters_for
  build_filters q = normalize_country_code U q.country >>= (λ country. ok (filters_for q country))
