-- ===== src/Core/Scoring.antt =====
-- core/scoring.py: hard filters, scores and the ranking of tenders.
pub mod Cpv
pub mod Filters
use licitaciones_mcp.Base.{
  ℕ, zero, suc, ◌+◌, ◌-◌, ◌*◌, ◌/◌, ◌%◌, max, min, ◌≡◌, Bool, true, false, not, ◌&&◌, ◌||◌, Option,
  none, some, List, [], ◌∷◌, ◌++◌, map, length, take, drop, keep, any, non_empty, if◌then◌else◌,
  ◌==◌, nat_eq, list_eq, contains, leb, ltb, eqb,
}
use licitaciones_mcp.Base.Int.{ℤ, pos, negsuc, lt_ℤ, le_ℤ}
use licitaciones_mcp.Base.Dict.{Dict, lookup}
use licitaciones_mcp.Base.Sort.{sorted}
use licitaciones_mcp.Base.Text.{
  Text, codes, split, strip, starts_with, occurs_in, lower_ascii, is_digit_ascii, is_alpha_ascii,
}
use licitaciones_mcp.Base.Unicode.{Unicode}
use licitaciones_mcp.Core.Models.{
  Tender, TenderFilters, TenderSearchResult, TenderStatus, open_, DateTime, datetime_min, OrderBy,
  by_score, by_published_at, by_deadline_at, by_estimated_value, Order, asc, desc, or_empty,
  searchable_text, source_id, source_eq, status_eq,
}
use licitaciones_mcp.Core.Normalization.{
  fold_text, normalize_cpv_codes, normalize_cpv_prefixes, listed,
}

-- The score of one pair of codes in `_cpv_score`, in quarters; 0 where no branch raises `best`.
pair_score : Text → Text → ℕ
pair_score tender_cpv wanted_cpv =
    if tender_cpv == wanted_cpv
    then 4
    else if take 5 tender_cpv == take 5 wanted_cpv
    then 3
    else if take 3 tender_cpv == take 3 wanted_cpv
    then 2
    else if take 2 tender_cpv == take 2 wanted_cpv
    then 1
    else 0

best_of_wanted : ℕ → Text → List Text → ℕ
best_of_wanted best tender_cpv [] = best
best_of_wanted best tender_cpv (w ∷ ws) =
    best_of_wanted (max best (pair_score tender_cpv w)) tender_cpv ws

best_of : ℕ → List Text → List Text → ℕ
best_of best [] ws = best
best_of best (t ∷ ts) ws = best_of (best_of_wanted best t ws) ts ws

-- `_cpv_score`, in quarters
unfoldable pub cpv_score : List Text → List Text → ℕ
unfolding best_of best_of_wanted pair_score
cpv_score tender_cpvs wanted_cpvs =
    if not (non_empty tender_cpvs) || not (non_empty wanted_cpvs)
    then 0
    else best_of 0 tender_cpvs wanted_cpvs

unfoldable pub cpv_overlaps : List Text → List Text → Bool
cpv_overlaps tender_cpvs wanted_cpvs = ltb 0 (cpv_score tender_cpvs wanted_cpvs)

unfoldable pub cpv_prefix_overlaps : List Text → List Text → Bool
cpv_prefix_overlaps tender_cpvs wanted_prefixes =
    any (λ tender_cpv. any (starts_with tender_cpv) wanted_prefixes) tender_cpvs

-- The truth value of an optional text.
abbrev pub given : Option Text → Bool
given none = false
given (some s) = non_empty s

-- `wanted_nuts`: the ASCII letters and digits of each code in lower case, empty results dropped.
alnum_prefix : Text → Text
alnum_prefix s = keep (λ c. is_digit_ascii c || is_alpha_ascii c) s

-- The rejection by a lower and by an upper bound on the day of a moment.
earlier_than : Option ℕ → Option DateTime → Bool
earlier_than none moment = false
earlier_than (some day) none = true
earlier_than (some day) (some at) = ltb at.date day

later_than : Option ℕ → Option DateTime → Bool
later_than none moment = false
later_than (some day) none = true
later_than (some day) (some at) = ltb day at.date

below : Option ℤ → Option ℤ → Bool
below none value = false
below (some bound) none = true
below (some bound) (some value) = lt_ℤ value bound

above : Option ℤ → Option ℤ → Bool
above none value = false
above (some bound) none = true
above (some bound) (some value) = lt_ℤ bound value

module _ (U : Unicode) where
  pub wanted_nuts : List Text → List Text
  unfolding alnum_prefix
  wanted_nuts codes =
      keep non_empty (map (λ code. map lower_ascii (alnum_prefix (strip (U.upper code)))) codes)

  text_field_matches : Option Text → List Text → Bool
  text_field_matches value filters =
      let folded = fold_text U value in
      non_empty folded && any (λ item. fold_text U (some item) == folded) filters

  pub buyer_filters : TenderFilters → List Text
  buyer_filters f = if given f.buyer then f.buyer_names ++ or_empty f.buyer ∷ [] else f.buyer_names

  pub dataset_kind : Tender → Text
  dataset_kind t = fold_text U (some (or_empty (lookup (codes "dataset_kind") t.source_metadata)))

  rejected_by_class : Tender → TenderFilters → Bool
  rejected_by_class t f =
      (f.only_open && not (t.status == open_))
      || (non_empty f.statuses && not (contains f.statuses t.status))
      || (non_empty f.sources && not (contains f.sources t.source))
      || (given f.country && not (U.upper t.country == or_empty f.country))

  rejected_by_codes : Tender → TenderFilters → Bool
  unfolding wanted_nuts
  rejected_by_codes t f =
      let cpvs = normalize_cpv_codes U (listed f.cpv_codes) in
      let prefixes = normalize_cpv_prefixes U (listed f.cpv_prefixes) in
      let nuts = wanted_nuts f.nuts_codes in
      (non_empty cpvs && not (cpv_overlaps t.cpv_codes cpvs))
      || (non_empty prefixes && not (cpv_prefix_overlaps t.cpv_codes prefixes))
      || (non_empty nuts
          && not (any (λ code. any (starts_with (fold_text U (some code))) nuts) t.nuts_codes))

  rejected_by_texts : Tender → TenderFilters → Bool
  unfolding buyer_filters
  rejected_by_texts t f =
      let region = fold_text U t.region in
      let buyer = fold_text U t.buyer_name in
      (non_empty f.regions
        && not (
            any
              (λ r.
                occurs_in (fold_text U (some r)) region || occurs_in region (fold_text U (some r)))
              f.regions))
      || (non_empty (buyer_filters f)
          && not (any (λ name. occurs_in (fold_text U (some name)) buyer) (buyer_filters f)))

  rejected_by_types : Tender → TenderFilters → Bool
  unfolding text_field_matches dataset_kind
  rejected_by_types t f =
      let kind = dataset_kind t in
      (non_empty f.procedure_types && not (text_field_matches t.procedure_type f.procedure_types))
      || (non_empty f.contract_types && not (text_field_matches t.contract_type f.contract_types))
      || (non_empty f.notice_types && not (text_field_matches t.notice_type f.notice_types))
      || (non_empty f.dataset_kinds
          && (not (non_empty kind)
              || not (contains (map (λ k. fold_text U (some k)) f.dataset_kinds) kind)))

  rejected_by_ranges : Tender → TenderFilters → Bool
  unfolding earlier_than later_than below above
  rejected_by_ranges t f =
      earlier_than f.published_from t.published_at
      || later_than f.published_to t.published_at
      || earlier_than f.deadline_from t.deadline_at
      || later_than f.deadline_to t.deadline_at
      || below f.min_value t.estimated_value
      || above f.max_value t.estimated_value

  -- The early returns, in the order of the source.
  unfoldable pub tender_matches_filters : Tender → TenderFilters → Bool
  unfolding rejected_by_class rejected_by_codes rejected_by_texts rejected_by_types
      rejected_by_ranges
  tender_matches_filters t f =
      if rejected_by_class t f
      then false
      else if rejected_by_codes t f
      then false
      else if rejected_by_texts t f
      then false
      else if rejected_by_types t f
      then false
      else not (rejected_by_ranges t f)
