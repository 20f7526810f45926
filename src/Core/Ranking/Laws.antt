-- ===== src/Core/Ranking/Laws.antt =====
-- `rank_tenders` of core/scoring.py: order, pages, and that no match is lost.
use licitaciones_mcp.Base.{
  ℕ, ◌+◌, ◌≤◌, ◌≡◌, refl, true, false, List, [], ◌∷◌, ◌++◌, map, All, All-take, All-drop, All-keep,
  arith, keep, length, length-take, take, drop, pages, list_eq, nat_eq,
}
use mathlib.Core.List.{Perm}
use licitaciones_mcp.Base.Dict.{Dict, lookup}
use licitaciones_mcp.Base.Int.{ℤ, le_ℤ}
use licitaciones_mcp.Base.Sort.{
  sorted-perm, sorted-All, IsSorted, sorted-IsSorted, take-IsSorted, drop-IsSorted,
}
use licitaciones_mcp.Base.Text.{Text}
use licitaciones_mcp.Base.Unicode.{Unicode}
use licitaciones_mcp.Core.Models.{
  Tender, TenderFilters, TenderSearchResult, OrderBy, Order, asc, desc, source_id,
}
use licitaciones_mcp.Core.Ranking.{score_tender, sort_key, in_order, sort_results, rank_tenders}
use licitaciones_mcp.Core.Scoring.{tender_matches_filters}

le_ℤ_total : (a b : ℤ) → le_ℤ a b ≡ false → le_ℤ b a ≡ true
le_ℤ_total a b h = ground arith

le_ℤ_trans : (a b c : ℤ) → le_ℤ a b ≡ true → le_ℤ b c ≡ true → le_ℤ a c ≡ true
le_ℤ_trans a b c h k = ground arith

module _ (by : OrderBy) where
  in_order_total :
      (o : Order) (x y : TenderSearchResult) → in_order by o x y ≡ false → in_order by o y x ≡ true
  unfolding in_order
  in_order_total asc x y h = le_ℤ_total (sort_key by x) (sort_key by y) h
  in_order_total desc x y h = le_ℤ_total (sort_key by y) (sort_key by x) h

  in_order_trans :
      (o : Order) (x y z : TenderSearchResult)
      → in_order by o x y ≡ true
      → in_order by o y z ≡ true
      → in_order by o x z ≡ true
  unfolding in_order
  in_order_trans asc x y z h k = le_ℤ_trans (sort_key by x) (sort_key by y) (sort_key by z) h k
  in_order_trans desc x y z h k = le_ℤ_trans (sort_key by z) (sort_key by y) (sort_key by x) k h

-- Sorting keeps the results, and puts them in the order that the filters ask for.
pub sort_results_lem :
    (results : List TenderSearchResult) (f : TenderFilters)
    → Perm (sort_results results f) results
      × IsSorted (in_order f.order_by f.order) (sort_results results f)
unfolding sort_results
sort_results_lem results f = (
  sorted-perm (in_order f.order_by f.order) results,
  sorted-IsSorted (in_order f.order_by f.order) (in_order_total f.order_by f.order)
      (in_order_trans f.order_by f.order) results,
)

module _ (U : Unicode) (now : ℕ) (f : TenderFilters) (scores : Dict Text ℤ) where
  -- All the scored matches, in order: `ordered` of the source.
  abbrev pub ordered : List Tender → List TenderSearchResult
  ordered tenders =
      sort_results
        (map (λ t. score_tender U now t f (lookup (source_id t) scores))
          (keep (λ t. tender_matches_filters U t f) tenders))
        f

  abbrev pub IsHit : TenderSearchResult → Type 0
  IsHit r = tender_matches_filters U r.tender f ≡ true

  scored-IsHit :
      (ts : List Tender)
      → All (λ t. tender_matches_filters U t f ≡ true) ts
      → All IsHit (map (λ t. score_tender U now t f (lookup (source_id t) scores)) ts)
  unfolding score_tender
  scored-IsHit [] h = tt
  scored-IsHit (t ∷ ts) h = (h.0, scored-IsHit ts h.1)

  ordered-IsHit : (tenders : List Tender) → All IsHit (ordered tenders)
  unfolding sort_results
  ordered-IsHit tenders =
      sorted-All (in_order f.order_by f.order) IsHit _
        (scored-IsHit _ (All-keep (λ t. tender_matches_filters U t f) tenders))

  -- A ranked page holds only tenders that match the filters, is in the asked order, and is no
  -- longer than the limit; the list that it is cut from holds each scored match, as often.
  pub rank_tenders_lem :
      (tenders : List Tender)
      → let page = rank_tenders U now tenders f scores in
        All IsHit page
        × IsSorted (in_order f.order_by f.order) page
        × (length page ≤ f.limit)
        × Perm (ordered tenders) (
            map
              (λ t. score_tender U now t f (lookup (source_id t) scores))
              (keep (λ t. tender_matches_filters U t f) tenders))
        × (page ≡ take f.limit (drop f.offset (ordered tenders)))
  unfolding rank_tenders
  rank_tenders_lem tenders =
      let hits =
        map (λ t. score_tender U now t f (lookup (source_id t) scores))
          (keep (λ t. tender_matches_filters U t f) tenders) in
      let order = sort_results_lem hits f in
      (
        All-take IsHit f.limit _ (All-drop IsHit f.offset _ (ordered-IsHit tenders)),
        take-IsSorted _ f.limit _ (drop-IsSorted _ f.offset _ order.1),
        omega (arith, length-take f.limit (drop f.offset (sort_results hits f))),
        order.0,
        refl,
      )

  -- Two pages that follow one another are the one page of both limits.
  pub rank_tenders_pages :
      (tenders : List Tender) (l m : ℕ)
      → rank_tenders U now tenders (record f { limit = l }) scores
          ++ rank_tenders U now tenders (record f { limit = m; offset = f.offset + l }) scores
        ≡ rank_tenders U now tenders (record f { limit = l + m }) scores
  unfolding rank_tenders sort_results score_tender tender_matches_filters
  rank_tenders_pages tenders l m = pages f.offset l m (ordered tenders)
