-- ===== src/Core/Ranking.antt =====
-- core/scoring.py: the score of a tender, and the sorted page of the matching ones.
pub mod Laws
use licitaciones_mcp.Base.{
  ℕ, zero, suc, ◌+◌, ◌-◌, ◌*◌, ◌/◌, ◌%◌, max, min, ◌≡◌, Bool, true, false, not, ◌&&◌, ◌||◌, Option,
  none, some, List, [], ◌∷◌, ◌++◌, map, length, take, drop, keep, any, non_empty, if◌then◌else◌,
  ◌==◌, nat_eq, list_eq, contains, leb, ltb, eqb,
}
use licitaciones_mcp.Base.Int.{ℤ, pos, negsuc, pos_part, le_ℤ}
use licitaciones_mcp.Base.Dict.{Dict, lookup}
use licitaciones_mcp.Base.Sort.{sorted}
use licitaciones_mcp.Base.Text.{Text, codes, split, occurs_in}
use licitaciones_mcp.Base.Unicode.{Unicode}
use licitaciones_mcp.Core.Models.{
  Tender, TenderFilters, TenderSearchResult, open_, DateTime, datetime_min, OrderBy, by_score,
  by_published_at, by_deadline_at, by_estimated_value, Order, asc, desc, or_empty, searchable_text,
  source_id, status_eq,
}
use licitaciones_mcp.Core.Normalization.{
  fold_text, normalize_cpv_codes, normalize_cpv_prefixes, listed,
}
use licitaciones_mcp.Core.Scoring.{given, cpv_score, cpv_prefix_overlaps, tender_matches_filters}

-- `round` of a fraction: half to even.
unfoldable pub round_half_even : ℕ → ℕ → ℕ
round_half_even n d =
    let q = n / d in
    let twice = 2 * (n % d) in if ltb twice d then q else if ltb d twice then q + 1 else q + q % 2

-- `.days` of the time that is left, for a deadline that has not passed
abbrev day : ℕ
day = 86400000000

-- The points for the deadline, in ten-thousandths; `none` if there is none or it has passed.
urgency : ℕ → Option DateTime → Option ℕ
urgency now none = none
urgency now (some deadline) =
    if leb now deadline.instant
    then some (10000 * (7 - min ((deadline.instant - now) / day) 7))
    else none

-- A reason, and its points, if the test holds.
award : Bool → ℕ → Text → List (ℕ × Text) → List (ℕ × Text)
award test points reason rest = if test then (points, reason) ∷ rest else rest

points_of : List (ℕ × Text) → ℕ
points_of [] = 0
points_of ((points, _) ∷ rest) = points + points_of rest

reasons_of : List (ℕ × Text) → List Text
reasons_of [] = []
reasons_of ((_, reason) ∷ rest) = reason ∷ reasons_of rest

-- `max(0.0, min(semantic_score, 1.0)) * 25`, of a score in ten-thousandths
semantic_points : Option ℤ → ℕ
semantic_points none = 0
semantic_points (some s) = 25 * min (pos_part s) 10000

abbrev is_given {ℓ} : {A : Type ℓ} → Option A → Bool
is_given none = false
is_given (some _) = true

abbrev value_or_zero : Option ℕ → ℕ
value_or_zero none = 0
value_or_zero (some n) = n

-- How many elements satisfy the test.
count : (Text → Bool) → List Text → ℕ
count p [] = 0
count p (x ∷ xs) = (if p x then 1 else 0) + count p xs

module _ (U : Unicode) where
  keyword_terms : Option Text → List Text
  keyword_terms text =
      if given text
      then keep (λ term. ltb 2 (length term)) (split (fold_text U (some (or_empty text))))
      else []

  -- `hits` of `_keyword_score`, whose value is hits / len(terms), and 0 without terms
  keyword_hits : Tender → Option Text → ℕ
  unfolding count keyword_terms
  keyword_hits tender text =
      let searchable = fold_text U (some (searchable_text tender)) in
      count (λ term. occurs_in term searchable) (keyword_terms text)

  -- The awards after the one for the text, with points in ten-thousandths.
  structured_awards : ℕ → Tender → TenderFilters → Option ℤ → List (ℕ × Text)
  unfolding award urgency semantic_points
  structured_awards now t f semantic =
      let wanted = normalize_cpv_codes U (listed f.cpv_codes) in
      let prefixes = normalize_cpv_prefixes U (listed f.cpv_prefixes) in
      let cpv = cpv_score t.cpv_codes wanted in
      let deadline = urgency now t.deadline_at in
      award (non_empty wanted && ltb 0 cpv) (cpv * 87500) (codes "cpv_match") (
        award (non_empty prefixes && cpv_prefix_overlaps t.cpv_codes prefixes) 180000
          (codes "cpv_prefix_match")
          (award (non_empty f.regions && given t.region) 100000 (codes "region_match") (
            award (given f.buyer && given t.buyer_name) 80000 (codes "buyer_match") (
              award (t.status == open_) 80000 (codes "open") (
                award (is_given deadline) (value_or_zero deadline) (codes "deadline_active") (
                  award (is_given semantic) (semantic_points semantic) (codes "semantic_match")
                    []))))))

  unfoldable pub score_tender : ℕ → Tender → TenderFilters → Option ℤ → TenderSearchResult
  unfolding structured_awards keyword_hits keyword_terms points_of reasons_of count
  score_tender now t f semantic =
      let hits = keyword_hits t f.text in
      let terms = max 1 (length (keyword_terms f.text)) in
      let awards = structured_awards now t f semantic in
      record {
        tender = t;
        score = 100 * round_half_even (points_of awards * terms + 400000 * hits) terms;
        reasons = if ltb 0 hits then codes "text_match" ∷ reasons_of awards else reasons_of awards;
      }

-- The key of `_sort_results` and of `_slice_retrieval_results`: a missing moment is `datetime.min`,
-- a missing value is -1.0.
moment_key : Option DateTime → ℤ
moment_key none = pos datetime_min.instant
moment_key (some at) = pos at.instant

value_key : Option ℤ → ℤ
value_key none = negsuc 99
value_key (some v) = v

unfoldable pub sort_key : OrderBy → TenderSearchResult → ℤ
unfolding moment_key value_key
sort_key by_score r = pos r.score
sort_key by_published_at r = moment_key r.tender.published_at
sort_key by_deadline_at r = moment_key r.tender.deadline_at
sort_key by_estimated_value r = value_key r.tender.estimated_value

-- Whether a result may stand before another: equal keys keep their order both ways.
unfoldable pub in_order : OrderBy → Order → TenderSearchResult → TenderSearchResult → Bool
in_order by asc x y = le_ℤ (sort_key by x) (sort_key by y)
in_order by desc x y = le_ℤ (sort_key by y) (sort_key by x)

unfoldable pub sort_results : List TenderSearchResult → TenderFilters → List TenderSearchResult
sort_results results f = sorted (in_order f.order_by f.order) results

module _ (U : Unicode) where
  unfoldable pub rank_tenders :
      ℕ → List Tender → TenderFilters → Dict Text ℤ → List TenderSearchResult
  rank_tenders now tenders f semantic_scores =
      let results =
        map (λ t. score_tender U now t f (lookup (source_id t) semantic_scores))
          (keep (λ t. tender_matches_filters U t f) tenders) in
      take f.limit (drop f.offset (sort_results results f))
