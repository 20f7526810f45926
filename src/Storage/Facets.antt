-- ===== src/Storage/Facets.antt =====
-- The facet counts and the observed values of storage/database.py. A `Counter` is a `dict` of numbers,
-- and `text_le` is Python's order of texts.
pub mod Counts
use licitaciones_mcp.Base.{
  ℕ, zero, suc, ◌+◌, max, min, Bool, true, false, not, ◌&&◌, ◌||◌, Option, none, some, List, [],
  ◌∷◌, ◌++◌, map, take, length, non_empty, any, if◌then◌else◌, ◌==◌, list_eq, nat_eq, contains, ltb,
  leb, eqb,
}
use licitaciones_mcp.Base.Dict.{Dict, lookup, insert}
use licitaciones_mcp.Base.Result.{Result, ok, raised}
use licitaciones_mcp.Base.Sort.{sorted}
use licitaciones_mcp.Base.Text.{Text, codes, occurs_in}
use licitaciones_mcp.Base.Unicode.{Unicode}
use licitaciones_mcp.Core.Catalogs.{placsp_notice_types}
use licitaciones_mcp.Core.Models.{
  Tender, TenderStatus, unknown, or_empty, source_value, status_value,
}
use licitaciones_mcp.Core.Normalization.{
  normalize_text, normalize_status, normalize_cpv_codes, fold_text, RawCodes, joined, missing,
}
use licitaciones_mcp.Core.Scoring.{given}
use licitaciones_mcp.Storage.Records.{status_of_value}
use licitaciones_mcp.Storage.Search.{sanitize_sql_prefixes}

abbrev pub Counter : Type 0
Counter = Dict Text ℕ

abbrev pub count_or_zero : Option ℕ → ℕ
count_or_zero none = 0
count_or_zero (some n) = n

-- `counter[key] += 1`
unfoldable pub add_one : Text → Counter → Counter
add_one key counter = insert key (suc (count_or_zero (lookup key counter))) counter

-- The counts of a list of values, one after the other.
unfoldable pub count_all : List Text → Counter → Counter
unfolding add_one
count_all [] counter = counter
count_all (v ∷ vs) counter = count_all vs (add_one v counter)

text_le : Text → Text → Bool
text_le [] t = true
text_le (c ∷ s) [] = false
text_le (c ∷ s) (d ∷ t) = ltb c d || (eqb c d && text_le s t)

-- The key `(-count, value)` of `_top_counter`
unfoldable pub before_top : Text × ℕ → Text × ℕ → Bool
unfolding text_le
before_top (a, m) (b, n) = ltb n m || (eqb m n && text_le a b)

unfoldable pub top_counter : Counter → ℕ → List (Text × ℕ)
unfolding before_top
top_counter counter limit = take limit (sorted before_top counter)

-- The key of `search_buyers` and `search_cpv_codes`: the count alone, the greatest first.
unfoldable pub most_counted : Counter → ℕ → List (Text × ℕ)
most_counted counter limit =
    take (max 1 (min limit 100)) (sorted (λ (_, m) (_, n). leb n m) counter)

or_unknown : TenderStatus → Result Text TenderStatus → TenderStatus
or_unknown other (ok status) = status
or_unknown other (raised _) = other

-- The texts that the facets count.
one_of_given : Option Text → List Text
one_of_given value = if given value then or_empty value ∷ [] else []

module _ (U : Unicode) where
  -- `_normalized_status_value`
  unfoldable pub normalized_status_value : Text → TenderStatus
  unfolding or_unknown
  normalized_status_value value =
      let normalized = normalize_text (some value) in
      if given normalized
      then or_unknown (normalize_status U normalized)
          (status_of_value (U.lower (or_empty normalized)))
      else unknown

  -- `_normalized_notice_facet_value`
  unfoldable pub normalized_notice_value : Option Text → Option Text
  normalized_notice_value value =
      let normalized = normalize_text value in
      if not (given normalized)
      then none
      else if given (lookup (U.upper (or_empty normalized)) placsp_notice_types)
      then some (U.upper (or_empty normalized))
      else normalized

  cpv_prefix : Text → List Text
  cpv_prefix cpv = if leb 2 (length cpv) then take 2 cpv ∷ [] else []

  prefixes_of : List Text → List Text
  unfolding cpv_prefix
  prefixes_of [] = []
  prefixes_of (cpv ∷ cpvs) = cpv_prefix cpv ++ prefixes_of cpvs

  head_of : List Text → List Text
  head_of [] = []
  head_of (v ∷ _) = v ∷ []

  -- `_normalized_nuts_value`
  nuts_of : List Text → List Text
  unfolding head_of
  nuts_of [] = []
  nuts_of (n ∷ ns) = head_of (sanitize_sql_prefixes U (n ∷ [])) ++ nuts_of ns

  dataset_of_row : Option Text → List Text
  unfolding one_of_given
  dataset_of_row kind =
      if given kind then map (λ s. U.lower s) (one_of_given (normalize_text kind)) else []

  -- What a row adds to each of the eleven counters, by the name of the facet.
  unfoldable pub facet_values : Text → Tender → List Text
  unfolding one_of_given normalized_status_value normalized_notice_value prefixes_of nuts_of
      dataset_of_row
  facet_values facet t =
      if facet == codes "statuses"
      then status_value (normalized_status_value (status_value t.status)) ∷ []
      else if facet == codes "notice_types"
      then one_of_given (normalized_notice_value t.notice_type)
      else if facet == codes "contract_types"
      then one_of_given (normalize_text t.contract_type)
      else if facet == codes "procedure_types"
      then one_of_given (normalize_text t.procedure_type)
      else if facet == codes "cpv_codes"
      then t.cpv_codes
      else if facet == codes "cpv_prefixes"
      then prefixes_of t.cpv_codes
      else if facet == codes "nuts_codes"
      then nuts_of t.nuts_codes
      else if facet == codes "regions"
      then one_of_given (normalize_text t.region)
      else if facet == codes "buyers"
      then one_of_given (normalize_text t.buyer_name)
      else if facet == codes "dataset_kinds"
      then dataset_of_row (lookup (codes "dataset_kind") t.source_metadata)
      else if facet == codes "sources"
      then one_of_given (normalize_text (some (source_value t.source)))
      else []

  pub values_of_rows : Text → List Tender → List Text
  unfolding facet_values
  values_of_rows facet [] = []
  values_of_rows facet (t ∷ ts) = facet_values facet t ++ values_of_rows facet ts

  -- One facet of `_facet_counts`, without its labels.
  unfoldable pub facet_counts : Text → List Tender → ℕ → List (Text × ℕ)
  unfolding values_of_rows
  facet_counts facet rows limit = top_counter (count_all (values_of_rows facet rows) []) limit

  buyers_matching : Text → List Tender → List Text
  buyers_matching query [] = []
  buyers_matching query (t ∷ ts) =
      let rest = buyers_matching query ts in
      if given t.buyer_name
        && not (non_empty query && not (occurs_in query (fold_text U t.buyer_name)))
      then or_empty t.buyer_name ∷ rest
      else rest

  unfoldable pub search_buyers : Option Text → ℕ → List Tender → List (Text × ℕ)
  unfolding buyers_matching
  search_buyers text limit rows =
      most_counted (count_all (buyers_matching (fold_text U text) rows) []) limit

  -- Whether `search_cpv_codes` counts a code.
  counts_code : List Text → Text → Text → Bool
  counts_code wanted query code =
      if non_empty wanted
      then contains wanted code
      else not (non_empty query && not (occurs_in query (fold_text U (some code))))

  codes_matching : List Text → Text → List Text → List Text
  unfolding counts_code
  codes_matching wanted query [] = []
  codes_matching wanted query (code ∷ cs) =
      let rest = codes_matching wanted query cs in
      if counts_code wanted query code then code ∷ rest else rest

  codes_of_rows : List Tender → List Text
  codes_of_rows [] = []
  codes_of_rows (t ∷ ts) = t.cpv_codes ++ codes_of_rows ts

  abbrev raw_of : Option Text → RawCodes
  raw_of none = missing
  raw_of (some s) = joined s

  unfoldable pub search_cpv_codes : Option Text → ℕ → List Tender → List (Text × ℕ)
  unfolding codes_matching codes_of_rows
  search_cpv_codes text limit rows =
      most_counted
        (count_all
          (codes_matching (normalize_cpv_codes U (raw_of text)) (fold_text U text)
            (codes_of_rows rows))
          [])
        limit
