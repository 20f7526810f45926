-- ===== src/Storage/Search.antt =====
-- storage/database.py: `search_tenders`, the statement that it builds and what it makes of the rows.
-- The rows of a table are the tenders as they are read (Storage/Records).
pub mod Laws
pub mod Complete
pub mod Semantic
use licitaciones_mcp.Base.{
  ℕ, ◌≡◌, Bool, true, false, not, ◌&&◌, ◌||◌, Option, none, some, List, [], ◌∷◌, ◌++◌, map, take,
  keep, any, non_empty, if◌then◌else◌, ◌==◌, nat_eq, list_eq, contains, leb,
}
use licitaciones_mcp.Base.Reordered.{Reordered}
use mathlib.Core.Option
use licitaciones_mcp.Base.Dict.{lookup}
use licitaciones_mcp.Base.Int.{ℤ, le_ℤ}
use licitaciones_mcp.Base.Result.{Result, ok, raised}
use licitaciones_mcp.Base.Text.{
  Text, codes, strip, starts_with, is_ascii, is_digit_ascii, is_alpha_ascii,
}
use licitaciones_mcp.Base.Unicode.{Unicode}
use licitaciones_mcp.Core.Models.{
  Tender, TenderFilters, TenderSearchResult, open_, DateTime, or_empty, source_value, status_value,
}
use licitaciones_mcp.Core.Normalization.{
  normalize_text, normalize_cpv_codes, normalize_cpv_prefixes, listed,
}
use licitaciones_mcp.Core.Ranking.{rank_tenders}
use licitaciones_mcp.Core.Scoring.{given}
use licitaciones_mcp.Storage.Retrieval.{results_from_retrieval_order, search_candidate_limit}

-- What the statement takes from Postgres, as a parameter.
pub record Postgres : Type 0 where
  -- `value ILIKE pattern` and `value LIKE pattern`
  pub ilike : Text → Text → Bool
  pub like : Text → Text → Bool
  pub upper : Text → Text
  pub lower : Text → Text
  pub btrim : Text → Text
  -- the instant at which a day begins, for a date that is compared with a moment
  pub day_start : ℕ → ℕ
  -- `search_vector @@ websearch_to_tsquery('spanish', q)`, and `value % q` of pg_trgm
  pub fts : Text → Tender → Bool
  pub similar : Text → Text → Bool
  -- whether the extension and its index are there, and the score of a row below zero
  pub bm25_available : Bool
  pub bm25_match : Text → Tender → Bool
  -- the three clauses `ORDER BY`
  pub by_bm25 : Text → List Tender → List Tender
  pub by_ts_rank : Text → List Tender → List Tender
  pub by_published_at : List Tender → List Tender

-- `ORDER BY` returns the rows that it is given, each as often.
pub record IsPostgres (D : Postgres) : Type 0 where
  pub by_bm25_rows : (q : Text) (rows : List Tender) → Reordered rows (D.by_bm25 q rows)
  pub by_ts_rank_rows : (q : Text) (rows : List Tender) → Reordered rows (D.by_ts_rank q rows)
  pub by_published_at_rows : (rows : List Tender) → Reordered rows (D.by_published_at rows)

pub data SearchBackend : Type 0 where
  bm25 fts : SearchBackend

-- A condition on a column that may be NULL, where it is not true.
abbrev pub on_column {ℓ} : {A : Type ℓ} → (A → Bool) → Option A → Bool
on_column p none = false
on_column p (some a) = p a

-- An `if` that adds a condition.
abbrev pub where_given : Bool → Bool → Bool
where_given wanted condition = if wanted then condition else true

abbrev where_some {ℓ κ} : {A : Type ℓ} {B : Type κ} → (A → B → Bool) → Option A → Option B → Bool
where_some p none value = true
where_some p (some bound) value = on_column (p bound) value

-- f"%{value}%" and f"{prefix}%"
abbrev infix_pattern : Text → Text
infix_pattern value = codes "%" ++ value ++ codes "%"

abbrev prefix_pattern : Text → Text
prefix_pattern value = value ++ codes "%"

-- The loop of `_sanitize_sql_prefixes`, `cleaned` and `seen` being one list.
sanitize_from : (Text → Text) → List Text → List Text → List Text
sanitize_from clean [] cleaned = cleaned
sanitize_from clean (p ∷ ps) cleaned =
    let found = clean p in
    sanitize_from clean ps
      (if non_empty found && not (contains cleaned found) then cleaned ++ found ∷ [] else cleaned)

abbrev pub match_reason : SearchBackend → Text
match_reason bm25 = codes "bm25_match"
match_reason fts = codes "fts_match"

module _ (U : Unicode) where
  sanitize_prefix : Text → Text
  sanitize_prefix prefix = keep (λ c. is_ascii c && U.is_alnum c) (strip (U.upper prefix))

  unfoldable pub sanitize_sql_prefixes : List Text → List Text
  unfolding sanitize_from sanitize_prefix
  sanitize_sql_prefixes prefixes = sanitize_from sanitize_prefix prefixes []

  unfoldable pub normalized_exact_filter_values : List Text → List Text
  normalized_exact_filter_values [] = []
  normalized_exact_filter_values (v ∷ vs) =
      let rest = normalized_exact_filter_values vs in
      if given (normalize_text (some v))
      then U.lower (or_empty (normalize_text (some v))) ∷ rest
      else rest

  module _ (D : Postgres) where
    -- The predicate of `_json_array_prefix_clause` on the values of the column. Both calls name a
    -- column that the guard lets through.
    json_array_prefix : List Text → List Text → Bool
    unfolding sanitize_sql_prefixes
    json_array_prefix values prefixes =
        let clean_prefixes = sanitize_sql_prefixes prefixes in
        if non_empty clean_prefixes
        then any (λ value. any (λ p. D.like (D.upper value) (prefix_pattern p)) clean_prefixes)
            values
        else true

    -- `lower(btrim(column)) IN values`, where there are values
    exact_values : List Text → Option Text → Bool
    unfolding normalized_exact_filter_values
    exact_values wanted value =
        let values = normalized_exact_filter_values wanted in
        where_given (non_empty values)
          (on_column (λ v. contains values (D.lower (D.btrim v))) value)

    class_conditions : TenderFilters → Tender → Bool
    class_conditions f t =
        where_given (non_empty f.sources)
          (contains (map source_value f.sources) (source_value t.source))
        && where_given (non_empty f.statuses)
            (contains (map status_value f.statuses) (status_value t.status))
        && where_given f.only_open (status_value t.status == status_value open_)
        && where_given (given f.country) (t.country == or_empty f.country)

    range_conditions : TenderFilters → Tender → Bool
    range_conditions f t =
        where_some (λ day at. leb (D.day_start day) at.instant) f.published_from t.published_at
        && where_some (λ day at. leb at.instant (D.day_start day)) f.published_to t.published_at
        && where_some (λ day at. leb (D.day_start day) at.instant) f.deadline_from t.deadline_at
        && where_some (λ day at. leb at.instant (D.day_start day)) f.deadline_to t.deadline_at
        && where_some (λ bound value. le_ℤ bound value) f.min_value t.estimated_value
        && where_some (λ bound value. le_ℤ value bound) f.max_value t.estimated_value

    code_conditions : TenderFilters → Tender → Bool
    unfolding json_array_prefix
    code_conditions f t =
        let wanted = normalize_cpv_codes U (listed f.cpv_codes) in
        let cpv_prefixes = normalize_cpv_prefixes U (listed f.cpv_prefixes) in
        let nuts_prefixes = sanitize_sql_prefixes f.nuts_codes in
        where_given (non_empty f.cpv_codes) (any (λ cpv. contains wanted cpv) t.cpv_codes)
        && where_given (non_empty cpv_prefixes) (json_array_prefix t.cpv_codes cpv_prefixes)
        && where_given (non_empty nuts_prefixes) (json_array_prefix t.nuts_codes nuts_prefixes)

    text_conditions : TenderFilters → Tender → Bool
    unfolding exact_values
    text_conditions f t =
        where_given (given f.buyer)
          (on_column (λ name. D.ilike name (infix_pattern (or_empty f.buyer))) t.buyer_name)
        && where_given (non_empty f.regions)
            (any (λ region. on_column (λ r. D.ilike r (infix_pattern region)) t.region) f.regions)
        && where_given (non_empty f.procedure_types)
            (exact_values f.procedure_types t.procedure_type)
        && where_given (non_empty f.contract_types) (exact_values f.contract_types t.contract_type)
        && where_given (non_empty f.notice_types) (exact_values f.notice_types t.notice_type)
        && where_given (non_empty f.dataset_kinds)
            (exact_values f.dataset_kinds (lookup (codes "dataset_kind") t.source_metadata))

    -- The conditions that `_apply_structured_filters` adds.
    unfoldable pub structured_filters : TenderFilters → Tender → Bool
    unfolding class_conditions range_conditions code_conditions text_conditions
    structured_filters f t =
        class_conditions f t && range_conditions f t && code_conditions f t && text_conditions f t

    -- The condition that `_apply_text_filter` adds.
    unfoldable pub text_filter : Text → Tender → Bool
    text_filter query t =
        if non_empty query
        then D.fts query t
          || D.similar t.title query
          || D.similar (or_empty t.buyer_name) query
          || D.ilike t.title (infix_pattern query)
          || on_column (λ s. D.ilike s (infix_pattern query)) t.summary
          || on_column (λ s. D.ilike s (infix_pattern query)) t.buyer_name
        else true

    -- The branch on the backend: the rows in their order, before the `LIMIT`.
    select_by_text : SearchBackend → Text → List Tender → Result Text (List Tender)
    unfolding text_filter
    select_by_text bm25 query rows =
        if D.bm25_available
        then ok (D.by_bm25 query (keep (D.bm25_match query) rows))
        else raised (codes "BM25 search backend requires pg_textsearch and idx_tenders_bm25_text")
    select_by_text fts query rows = ok (D.by_ts_rank query (keep (text_filter query) rows))

    unfoldable pub select_rows :
        SearchBackend → TenderFilters → List Tender → Result Text (List Tender)
    unfolding select_by_text structured_filters
    select_rows backend f table =
        let rows = keep (structured_filters f) table in
        if given f.text
        then select_by_text backend (or_empty f.text) rows
        else ok (D.by_published_at rows)

    results_of :
        SearchBackend
        → ℕ
        → TenderFilters
        → Result Text (List Tender)
        → Result Text (List TenderSearchResult)
    results_of backend now f (raised e) = raised e
    results_of backend now f (ok rows) =
        let tenders = take (search_candidate_limit f) rows in
        ok (
          if given f.text
          then results_from_retrieval_order U f (match_reason backend ∷ []) tenders
          else rank_tenders U now tenders f [])

    -- `search_tenders`: `table` holds the rows, `now` is the time of the ranking.
    unfoldable pub search_tenders :
        SearchBackend → ℕ → List Tender → TenderFilters → Result Text (List TenderSearchResult)
    unfolding results_of select_rows
    search_tenders backend now table f = results_of backend now f (select_rows backend f table)
