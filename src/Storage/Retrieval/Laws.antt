-- ===== src/Storage/Retrieval/Laws.antt =====
-- The window of candidates covers the page that is asked for, and a result in retrieval order has
-- the score of its place.
use licitaciones_mcp.Base.{
  ap, ◌∙◌, ℕ, zero, suc, ◌+◌, ◌≤◌, ◌≡◌, refl, true, Option, none, some, List, [], ◌∷◌, All,
  All-take, All-drop, arith, length, length-take, drop, inl, inr, Bool-cases,
}
use licitaciones_mcp.Base.Sort.{sorted-All}
use licitaciones_mcp.Base.Text.Strip.{All-reverse}
use licitaciones_mcp.Base.Text.{Text}
use licitaciones_mcp.Base.Unicode.{Unicode}
use licitaciones_mcp.Core.Models.{
  Tender, TenderFilters, TenderSearchResult, OrderBy, by_score, by_published_at, by_deadline_at,
  by_estimated_value, Order, asc, desc, IsBounded,
}
use licitaciones_mcp.Core.Ranking.{sort_results, in_order}
use licitaciones_mcp.Core.Scoring.{tender_matches_filters}
use licitaciones_mcp.Storage.Retrieval.{
  search_candidate_limit, search_candidate_max, rank_score, retrieval_order,
  slice_retrieval_results, ranked_matches, results_from_retrieval_order,
}

-- For filters within their bounds the window of candidates holds the last result of the page, and
-- it is at most the maximum of 5000 rows.
pub search_candidate_limit_covers :
    (f : TenderFilters)
    → IsBounded f
    → (f.offset + f.limit ≤ search_candidate_limit f)
      × (search_candidate_limit f ≤ search_candidate_max)
unfolding search_candidate_limit
search_candidate_limit_covers f b = omega arith

-- The element at a place of a list.
abbrev pub get_elem? {ℓ} : {A : Type ℓ} → List A → ℕ → Option A
get_elem? [] i = none
get_elem? (x ∷ xs) zero = some x
get_elem? (x ∷ xs) (suc i) = get_elem? xs i

module _ (P : TenderSearchResult → Type 0) (results : List TenderSearchResult) (f : TenderFilters)
    (h : All P results) where
  retrieval_order-All : (by : OrderBy) (o : Order) → All P (retrieval_order by o results f)
  unfolding retrieval_order sort_results
  retrieval_order-All by_score asc = All-reverse P results h
  retrieval_order-All by_score desc = h
  retrieval_order-All by_published_at o = sorted-All (in_order f.order_by f.order) P results h
  retrieval_order-All by_deadline_at o = sorted-All (in_order f.order_by f.order) P results h
  retrieval_order-All by_estimated_value o = sorted-All (in_order f.order_by f.order) P results h

  pub slice_retrieval_results-All : All P (slice_retrieval_results results f)
  unfolding slice_retrieval_results
  slice_retrieval_results-All =
      All-take P f.limit _ (All-drop P f.offset _ (retrieval_order-All f.order_by f.order))

pub length-slice_retrieval_results :
    (results : List TenderSearchResult) (f : TenderFilters)
    → length (slice_retrieval_results results f) ≤ f.limit
unfolding slice_retrieval_results
length-slice_retrieval_results results f =
    omega
      (arith, length-take f.limit (drop f.offset (retrieval_order f.order_by f.order results f)))

module _ (U : Unicode) (f : TenderFilters) (reasons : List Text) where
  -- A result stands for a candidate that matches, scored by the candidate's place.
  abbrev pub IsAtPlace : ℕ → List Tender → TenderSearchResult → Type 0
  IsAtPlace rank tenders r =
      (i : ℕ) × (get_elem? tenders i ≡ some r.tender)
      × (r.score ≡ rank_score (i + rank))
      × (tender_matches_filters U r.tender f ≡ true)

  later_places :
      (rank : ℕ) (t : Tender) (ts : List Tender) (rs : List TenderSearchResult)
      → All (IsAtPlace (suc rank) ts) rs
      → All (IsAtPlace rank (t ∷ ts)) rs
  later_places rank t ts [] h = tt
  later_places rank t ts (r ∷ rs) ((i, e, s, m), h) =
      ((suc i, e, s ∙ ap rank_score (omega arith), m), later_places rank t ts rs h)

  ranked_matches-IsAtPlace :
      (rank : ℕ) (ts : List Tender) → All (IsAtPlace rank ts) (ranked_matches U f reasons rank ts)
  unfolding ranked_matches
  ranked_matches-IsAtPlace rank [] = tt
  ranked_matches-IsAtPlace rank (t ∷ ts) =
      let rest = later_places rank t ts _ (ranked_matches-IsAtPlace (suc rank) ts) in
      elim (Bool-cases (tender_matches_filters U t f)) [
        | inl e ↦ rw e ((zero, refl, ap rank_score (omega arith), e), rest)
        | inr e ↦ rw e rest
      ]

  -- A page in retrieval order is no longer than the limit, and each of its results is a candidate
  -- that matches the filters, with the score of its place among all the candidates.
  pub results_from_retrieval_order_lem :
      (tenders : List Tender)
      → let page = results_from_retrieval_order U f reasons tenders in
        (length page ≤ f.limit) × All (IsAtPlace 1 tenders) page
  unfolding results_from_retrieval_order
  results_from_retrieval_order_lem tenders = (
    length-slice_retrieval_results (ranked_matches U f reasons 1 tenders) f,
    slice_retrieval_results-All (IsAtPlace 1 tenders) (ranked_matches U f reasons 1 tenders) f
        (ranked_matches-IsAtPlace 1 tenders),
  )
