-- ===== src/Storage/Retrieval.antt =====
-- storage/database.py: the window of candidates, and results in retrieval order.
pub mod Laws
use mathlib.Core.List.{reverse}
use licitaciones_mcp.Base.{
  ℕ, zero, suc, ◌+◌, ◌*◌, max, min, Bool, true, false, List, [], ◌∷◌, take, drop, if◌then◌else◌,
}
use licitaciones_mcp.Base.Text.{Text}
use licitaciones_mcp.Base.Unicode.{Unicode}
use licitaciones_mcp.Core.Models.{
  Tender, TenderFilters, TenderSearchResult, OrderBy, by_score, Order, asc, desc,
  max_tender_search_limit,
}
use licitaciones_mcp.Core.Ranking.{round_half_even, sort_results}
use licitaciones_mcp.Core.Scoring.{tender_matches_filters}

abbrev pub search_candidate_min : ℕ
search_candidate_min = 200

abbrev pub search_candidate_multiplier : ℕ
search_candidate_multiplier = 20

abbrev pub search_candidate_max : ℕ
search_candidate_max = 5000

unfoldable pub search_candidate_limit : TenderFilters → ℕ
search_candidate_limit f =
    let window =
      max ((min f.limit max_tender_search_limit + f.offset) * search_candidate_multiplier)
        search_candidate_min in
    min window search_candidate_max

-- In millionths.
unfoldable pub rank_score : ℕ → ℕ
rank_score rank = round_half_even 1000000 (max rank 1)

-- The order before the cut: a sort by score keeps the retrieval order, or turns it round.
unfoldable pub retrieval_order :
    OrderBy → Order → List TenderSearchResult → TenderFilters → List TenderSearchResult
retrieval_order by_score asc results f = reverse results
retrieval_order by_score desc results f = results
retrieval_order _ _ results f = sort_results results f

unfoldable pub slice_retrieval_results :
    List TenderSearchResult → TenderFilters → List TenderSearchResult
slice_retrieval_results results f =
    take f.limit (drop f.offset (retrieval_order f.order_by f.order results f))

module _ (U : Unicode) (f : TenderFilters) (reasons : List Text) where
  -- The comprehension over `enumerate(tenders, start=1)`.
  ranked_matches : ℕ → List Tender → List TenderSearchResult
  ranked_matches rank [] = []
  ranked_matches rank (t ∷ ts) =
      let rest = ranked_matches (suc rank) ts in
      if tender_matches_filters U t f
      then record { tender = t; score = rank_score rank; reasons = reasons } ∷ rest
      else rest

  unfoldable pub results_from_retrieval_order : List Tender → List TenderSearchResult
  unfolding ranked_matches
  results_from_retrieval_order tenders = slice_retrieval_results (ranked_matches 1 tenders) f
