-- ===== src/Storage/Search/Semantic/Laws.antt =====
-- The results of `hybrid_search`.
use licitaciones_mcp.Base.{
  All-map, ℕ, ◌≤◌, ◌≡◌, refl, true, false, Option, List, map, All, length, non_empty, inl, inr,
  Bool-cases,
}
use licitaciones_mcp.Base.Int.{ℤ}
use licitaciones_mcp.Base.Result.{ok, raised}
use licitaciones_mcp.Base.Text.{Text}
use licitaciones_mcp.Base.Unicode.{Unicode}
use licitaciones_mcp.Core.Models.{Tender, TenderFilters, TenderSearchResult}
use licitaciones_mcp.Storage.Hybrid.{hybrid_page, fusion_window, keyword_filters}
use licitaciones_mcp.Storage.Hybrid.Laws.{IsMatching, hybrid_page-IsMatching}
use licitaciones_mcp.Storage.Search.{Postgres, IsPostgres, SearchBackend, bm25, fts}
use licitaciones_mcp.Storage.Search.Laws.{has_backend, search_tenders_lem}
use licitaciones_mcp.Storage.Search.Semantic.{
  Embedded, Pgvector, semantic_search_tenders, hybrid_search,
}

module _ (U : Unicode) where
  keyword_has_backend :
      (D : Postgres) (tenders : List Tender) (f : TenderFilters) (now top_k : ℕ)
      (backend : SearchBackend)
      → has_backend U D tenders f now backend ≡ true
      → has_backend U D tenders (keyword_filters top_k f) now backend ≡ true
  unfolding keyword_filters
  keyword_has_backend D tenders f now top_k bm25 h = h
  keyword_has_backend D tenders f now top_k fts h = refl

  keyword_no_backend :
      (D : Postgres) (tenders : List Tender) (f : TenderFilters) (now top_k : ℕ)
      (backend : SearchBackend)
      → has_backend U D tenders f now backend ≡ false
      → has_backend U D tenders (keyword_filters top_k f) now backend ≡ false
  unfolding keyword_filters
  keyword_no_backend D tenders f now top_k bm25 h = h
  keyword_no_backend D tenders f now top_k fts h = h

  -- Where the backend that a text needs is there, a hybrid search returns a page, with or without an
  -- embedding of the query, whatever pgvector answers: no longer than the limit, and the filter
  -- function accepts each of its results.
  pub hybrid_search_lem :
      (D : Postgres) (V : Pgvector) (unit : ℕ)
      → IsPostgres D
      → (backend : SearchBackend) (now rrf_k top_k : ℕ) (f : TenderFilters) (embedding : List ℤ)
        (provider model : Option Text) (table : List Embedded) (tenders : List Tender)
      → has_backend U D tenders f now backend ≡ true
      → (page : List TenderSearchResult) × (hybrid_search U D V unit backend now rrf_k top_k f
            embedding provider model table tenders
          ≡ ok page)
        × (length page ≤ f.limit)
        × All (IsMatching U f) page
  unfolding hybrid_search keyword_filters
  hybrid_search_lem D V unit L backend now rrf_k top_k f embedding provider model table tenders h =
      elim (Bool-cases (non_empty embedding)) [
        | inl e ↦
            let (keyword, found, _, _) =
              (search_tenders_lem U D tenders (keyword_filters top_k f) now L backend).0
                (keyword_has_backend D tenders f now top_k backend h) in
            let semantic =
              map (λ (t, _). t)
                (semantic_search_tenders U D V unit embedding (fusion_window top_k f) f provider
                  model table tenders) in
            let (short, all) = hybrid_page-IsMatching U rrf_k keyword semantic f in
            rw (e, found) (hybrid_page U rrf_k keyword semantic f, refl, short, all)
        | inr e ↦
            let (page, found, short, all) = (search_tenders_lem U D tenders f now L backend).0 h in
            rw e (page, found, short, All-map (λ r m. m.by_function) page all)
      ]

  -- Without the backend that a text needs, a hybrid search raises.
  pub hybrid_search-raised :
      (D : Postgres) (V : Pgvector) (unit : ℕ)
      → IsPostgres D
      → (backend : SearchBackend) (now rrf_k top_k : ℕ) (f : TenderFilters) (embedding : List ℤ)
        (provider model : Option Text) (table : List Embedded) (tenders : List Tender)
      → has_backend U D tenders f now backend ≡ false
      → (e : Text) × (hybrid_search U D V unit backend now rrf_k top_k f embedding provider model
            table tenders
          ≡ raised e)
  unfolding hybrid_search
  hybrid_search-raised D V unit L backend now rrf_k top_k f embedding provider model table tenders
        h =
      elim (Bool-cases (non_empty embedding)) [
        | inl e ↦
            let (x, found) =
              (search_tenders_lem U D tenders (keyword_filters top_k f) now L backend).1
                (keyword_no_backend D tenders f now top_k backend h) in
            rw (e, found) (x, refl)
        | inr e ↦
            let (x, found) = (search_tenders_lem U D tenders f now L backend).1 h in
            rw (e, found) (x, refl)
      ]
