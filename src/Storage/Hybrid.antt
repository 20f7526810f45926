-- ===== src/Storage/Hybrid.antt =====
-- `hybrid_search` of storage/database.py after its two searches: reciprocal rank fusion. The scores
-- of the fusion are exact fractions here.
pub mod Laws
use licitaciones_mcp.Base.{
  ℕ, zero, suc, ◌+◌, ◌*◌, max, min, Bool, true, false, not, Option, none, some, List, [], ◌∷◌, ◌++◌,
  map, keep, if◌then◌else◌, list_eq, nat_eq, contains, non_empty, ◌==◌, leb, ltb, eqb, ◌||◌, ◌&&◌,
}
use licitaciones_mcp.Base.Dict.{Dict, lookup, insert}
use licitaciones_mcp.Base.Frac.{Frac, zero_frac, plus, le_frac}
use licitaciones_mcp.Base.Sort.{sorted}
use licitaciones_mcp.Base.Text.{Text, codes}
use licitaciones_mcp.Base.Unicode.{Unicode}
use licitaciones_mcp.Core.Models.{
  Tender, TenderFilters, TenderSearchResult, by_score, desc, or_empty,
}
use licitaciones_mcp.Core.Ranking.{round_half_even}
use licitaciones_mcp.Core.Scoring.{given, tender_matches_filters}
use licitaciones_mcp.Storage.Retrieval.{slice_retrieval_results, search_candidate_max}

-- The arguments of the two searches.
unfoldable pub fusion_window : ℕ → TenderFilters → ℕ
fusion_window top_k f = max top_k (f.limit + f.offset)

unfoldable pub keyword_filters : ℕ → TenderFilters → TenderFilters
unfolding fusion_window
keyword_filters top_k f = record f {
  offset = 0;
  limit = max 1 (min (fusion_window top_k f) search_candidate_max);
  order_by = by_score;
  order = desc;
}

-- `tender.id or tender.dedupe_key or tender.external_id`
unfoldable pub fusion_key : Tender → Text
fusion_key t =
    if given t.id
    then or_empty t.id
    else if given t.dedupe_key
    then or_empty t.dedupe_key
    else t.external_id

pub record Fusion : Type 0 where
  pub rrf : Dict Text Frac
  pub tenders : Dict Text Tender
  pub reasons_by_key : Dict Text (List Text)

abbrev pub empty_fusion : Fusion
empty_fusion = record { rrf = []; tenders = []; reasons_by_key = [] }

abbrev score_or_zero : Option Frac → Frac
score_or_zero none = zero_frac
score_or_zero (some x) = x

-- `rrf[key] = rrf.get(key, 0.0) + 1.0 / (rrf_k + rank)`
bump : ℕ → ℕ → Text → Dict Text Frac → Dict Text Frac
bump rrf_k rank key rrf =
    insert key (plus (score_or_zero (lookup key rrf)) (record { num = 1; den = rrf_k + rank })) rrf

-- `set.update`
add_all : List Text → List Text → List Text
add_all seen [] = seen
add_all seen (r ∷ rs) = add_all (if contains seen r then seen else seen ++ r ∷ []) rs

abbrev reasons_or_none : Option (List Text) → List Text
reasons_or_none none = []
reasons_or_none (some rs) = rs

-- `reasons_by_key.setdefault(key, set()).update(reasons)`
note : Text → List Text → Dict Text (List Text) → Dict Text (List Text)
unfolding add_all
note key reasons by_key = insert key (add_all (reasons_or_none (lookup key by_key)) reasons) by_key

-- `tenders.setdefault(key, tender)`
set_default : Text → Tender → Dict Text Tender → Dict Text Tender
set_default key t tenders = elim (lookup key tenders) [
  | none ↦ insert key t tenders
  | some _ ↦ tenders
]

fuse_keyword : ℕ → ℕ → List TenderSearchResult → Fusion → Fusion
unfolding bump note
fuse_keyword rrf_k rank [] fusion = fusion
fuse_keyword rrf_k rank (r ∷ rs) fusion =
    let key = fusion_key r.tender in
    fuse_keyword rrf_k (suc rank) rs (record {
      rrf = bump rrf_k rank key fusion.rrf;
      tenders = insert key r.tender fusion.tenders;
      reasons_by_key = note key r.reasons fusion.reasons_by_key;
    })

fuse_semantic : ℕ → ℕ → List Tender → Fusion → Fusion
unfolding bump note set_default
fuse_semantic rrf_k rank [] fusion = fusion
fuse_semantic rrf_k rank (t ∷ ts) fusion =
    let key = fusion_key t in
    fuse_semantic rrf_k (suc rank) ts (record {
      rrf = bump rrf_k rank key fusion.rrf;
      tenders = set_default key t fusion.tenders;
      reasons_by_key = note key (codes "semantic_match" ∷ []) fusion.reasons_by_key;
    })

unfoldable pub fuse : ℕ → List TenderSearchResult → List Tender → Fusion
unfolding fuse_keyword fuse_semantic
fuse rrf_k keyword semantic =
    fuse_semantic rrf_k 1 semantic (fuse_keyword rrf_k 1 keyword empty_fusion)

-- Python's order of texts.
text_le : Text → Text → Bool
text_le [] t = true
text_le (c ∷ s) [] = false
text_le (c ∷ s) (d ∷ t) = ltb c d || (eqb c d && text_le s t)

values {ℓ} : {V : Type ℓ} → Dict Text V → List V
values [] = []
values ((_, v) ∷ d) = v ∷ values d

-- `max(scores.values())`
best : Frac → Dict Text Frac → Frac
best x [] = x
best x ((_, y) ∷ d) = best (if le_frac y x then x else y) d

-- `_normalize_scores`, for one score, in millionths
unfoldable pub normalized : Dict Text Frac → Frac → ℕ
unfolding best
normalized rrf x =
    let top = best zero_frac rrf in
    if eqb top.num 0 then 0 else round_half_even (1000000 * (x.num * top.den)) (x.den * top.num)

module _ (U : Unicode) where
  fused_result : Fusion → Tender → TenderSearchResult
  unfolding text_le
  fused_result fusion t = record {
    tender = t;
    score = normalized fusion.rrf (score_or_zero (lookup (fusion_key t) fusion.rrf));
    reasons = sorted text_le (elim (lookup (fusion_key t) fusion.reasons_by_key) [
      | none ↦ codes "hybrid_match" ∷ []
      | some rs ↦ rs
    ]);
  }

  -- Whether a tender may stand before another in `fused`.
  before_fused : Fusion → Tender → Tender → Bool
  before_fused fusion a b =
      le_frac (score_or_zero (lookup (fusion_key b) fusion.rrf))
        (score_or_zero (lookup (fusion_key a) fusion.rrf))

  unfoldable pub fused_results : Fusion → TenderFilters → List TenderSearchResult
  unfolding fused_result before_fused values
  fused_results fusion f = map (fused_result fusion) (
      keep (λ t. tender_matches_filters U t f)
        (sorted (before_fused fusion) (values fusion.tenders)))

  unfoldable pub hybrid_page :
      ℕ → List TenderSearchResult → List Tender → TenderFilters → List TenderSearchResult
  hybrid_page rrf_k keyword semantic f =
      slice_retrieval_results (fused_results (fuse rrf_k keyword semantic) f) f
