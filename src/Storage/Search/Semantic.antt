-- ===== src/Storage/Search/Semantic.antt =====
-- storage/database.py: `semantic_search_tenders`, and `hybrid_search` with its two searches.
pub mod Laws
use licitaciones_mcp.Base.{
  ℕ, max, min, Bool, true, false, ◌&&◌, Option, none, some, List, [], ◌∷◌, map, take, keep, any,
  length, non_empty, if◌then◌else◌, ◌==◌, nat_eq, list_eq, option_eq, contains, leb,
}
use licitaciones_mcp.Base.Dict.{Dict, lookup, insert}
use licitaciones_mcp.Base.Int.{ℤ}
use licitaciones_mcp.Base.Result.{Result, ok, raised, ◌>>=◌}
use licitaciones_mcp.Base.Sort.{sorted}
use licitaciones_mcp.Base.Text.{Text}
use licitaciones_mcp.Base.Unicode.{Unicode}
use licitaciones_mcp.Core.Models.{Tender, TenderFilters, TenderSearchResult, or_empty}
use licitaciones_mcp.Storage.Hybrid.{fusion_window, keyword_filters, hybrid_page}
use licitaciones_mcp.Storage.Retrieval.{search_candidate_max}
use licitaciones_mcp.Storage.Search.{
  Postgres, SearchBackend, structured_filters, search_tenders, where_given,
}

-- A row of the table of embeddings, joined with its tender.
pub record Embedded : Type 0 where
  pub tender : Tender
  pub provider : Text
  pub model : Text
  pub dimensions : ℕ
  pub has_vector : Bool

-- What the statement takes from pgvector: the distance in its own unit, and the clause `ORDER BY`.
-- `any_order` is the order in which a statement without that clause returns the rows.
pub record Pgvector : Type 0 where
  pub available : Bool
  pub distance : List ℤ → Embedded → ℕ
  pub by_distance : List ℤ → List Embedded → List Embedded
  pub any_order : List Tender → List Tender

-- `if provider is not None: ...`
abbrev equals_given : Option Text → Text → Bool
equals_given none value = true
equals_given (some wanted) value = value == wanted

-- `{row[0]: float(row[1]) for row in rows}`
distances_of : (Embedded → ℕ) → List Embedded → Dict Text ℕ → Dict Text ℕ
distances_of distance [] distances = distances
distances_of distance (e ∷ es) distances =
    distances_of distance es (insert (or_empty e.tender.id) (distance e) distances)

-- `distances.get(r.id, 1.0)`, `unit` standing for 1.0
distance_or : ℕ → Option ℕ → ℕ
distance_or unit none = unit
distance_or unit (some d) = d

module _ (U : Unicode) (D : Postgres) (V : Pgvector) (unit : ℕ) where
  nearest_rows :
      List ℤ → ℕ → TenderFilters → Option Text → Option Text → List Embedded → List Embedded
  nearest_rows embedding top_k f provider model table =
      take (max 1 (min top_k search_candidate_max)) (
        V.by_distance embedding (
          keep
            (λ e.
              e.has_vector
              && e.dimensions == length embedding
              && equals_given provider e.provider
              && equals_given model e.model
              && structured_filters U D f e.tender)
            table))

  -- The second statement, and the sort by the distances of the first.
  nearest_tenders : List ℤ → List Embedded → List Tender → List (Tender × ℕ)
  unfolding distances_of distance_or
  nearest_tenders embedding rows tenders =
      let ids = map (λ e. or_empty e.tender.id) rows in
      let distances = distances_of (V.distance embedding) rows [] in
      map (λ t. (t, distance_or unit (lookup (or_empty t.id) distances)))
        (sorted
          (λ a b.
            leb (distance_or unit (lookup (or_empty a.id) distances))
              (distance_or unit (lookup (or_empty b.id) distances)))
          (V.any_order (keep (λ t. contains ids (or_empty t.id)) tenders)))

  -- The tenders with their distances, nearest first.
  unfoldable pub semantic_search_tenders :
      List ℤ
      → ℕ
      → TenderFilters
      → Option Text
      → Option Text
      → List Embedded
      → List Tender
      → List (Tender × ℕ)
  unfolding nearest_rows nearest_tenders
  semantic_search_tenders embedding top_k f provider model table tenders =
      if non_empty embedding && V.available
      then nearest_tenders embedding (nearest_rows embedding top_k f provider model table) tenders
      else []

  -- Without an embedding of the query, the search by words alone.
  unfoldable pub hybrid_search :
      SearchBackend
      → ℕ
      → ℕ
      → ℕ
      → TenderFilters
      → List ℤ
      → Option Text
      → Option Text
      → List Embedded
      → List Tender
      → Result Text (List TenderSearchResult)
  hybrid_search backend now rrf_k top_k f embedding provider model table tenders =
      if non_empty embedding
      then search_tenders U D backend now tenders (keyword_filters top_k f) >>= (λ keyword. ok (
          hybrid_page U rrf_k keyword
            (map (λ (t, _). t)
              (semantic_search_tenders embedding (fusion_window top_k f) f provider model table
                tenders))
            f))
      else search_tenders U D backend now tenders f
