-- ===== src/Server/Tools/Page.antt =====
-- The page that the tool `search_tenders` shows.
use licitaciones_mcp.Base.{
  ℕ, ◌+◌, ◌≤◌, ◌≡◌, refl, Bool, true, false, not, List, [], ◌∷◌, arith, inl, inr, length,
  length-take, take, drop, non_empty, Bool-cases, if◌then◌else◌,
}
use licitaciones_mcp.Base.Result.{Result, ok, raised, ◌>>=◌}
use licitaciones_mcp.Base.Text.{Text, codes}
use licitaciones_mcp.Core.Models.{or_empty, Tender, TenderFilters, TenderSearchResult, IsBounded}
use licitaciones_mcp.Core.Countries.{CountryError}
use licitaciones_mcp.Jobs.Ingest.{World, Effect, handle}
use licitaciones_mcp.Server.Filters.{Request, build_filters}
use licitaciones_mcp.Server.Filters.Built.{Outcome, build_filters_lem}
use licitaciones_mcp.Server.Tools.{
  ToolResponse, search_response, search_error, invalid_filters, Tools, QueryEmbedding,
  semantic_results, by_words, without, by_vector, respond, refreshed, search_tenders_tool,
  is_semantic, table_of,
}
use licitaciones_mcp.Storage.Search.{IsPostgres}
use licitaciones_mcp.Storage.Search.Laws.{has_backend, search_tenders_lem}
use licitaciones_mcp.Storage.Search.Semantic.{semantic_search_tenders, hybrid_search}
use licitaciones_mcp.Storage.Search.Semantic.Laws.{hybrid_search_lem, hybrid_search-raised}

module _ (S : Tools) (L : IsPostgres S.postgres) where
  -- A response with results shows no more than the limit asks for, which is at most 500.
  abbrev pub IsPage : ToolResponse → Type 0
  IsPage (search_response f results) = (length results ≤ f.limit) × (length results ≤ 500)
  IsPage (search_error f error message) = Unit
  IsPage (invalid_filters e) = Unit

  pub data AllPages : Result Text ToolResponse → Type 0 where
    returned : {r : ToolResponse} → IsPage r → AllPages (ok r)
    raises : {e : Text} → AllPages (raised e)

  either-AllPages :
      (b : Bool) (x y : Result Text ToolResponse)
      → AllPages x
      → AllPages y
      → AllPages (if b then x else y)
  either-AllPages true x y h k = h
  either-AllPages false x y h k = k

  module _ (f : TenderFilters) (w : World) (b : IsBounded f) where
    length-semantic_results : (ps : List (Tender × ℕ)) → length (semantic_results S ps) ≡ length ps
    unfolding semantic_results
    length-semantic_results [] = refl
    length-semantic_results ((t, d) ∷ ps) = omega (arith, length-semantic_results ps)

    page : (rs : List TenderSearchResult) → length rs ≤ f.limit → IsPage (search_response f rs)
    page rs h = (h, omega (arith, h, b.limit_high))

    by_words-AllPages : AllPages (by_words S f w)
    unfolding by_words
    by_words-AllPages =
        let found =
          search_tenders_lem S.unicode S.postgres (table_of w.tenders) f (S.now w) L S.backend in
        elim (Bool-cases
          (has_backend S.unicode S.postgres (table_of w.tenders) f (S.now w) S.backend)) [
            | inl h ↦
                let (rs, e, short, all) = found.0 h in rw (by_words, e) (returned (page rs short))
            | inr h ↦ let (x, e) = found.1 h in rw (by_words, e) raises
          ]

    without-AllPages : (error message : Text) → AllPages (without S f w error message)
    unfolding without
    without-AllPages error message = either-AllPages _ _ _ (returned tt) by_words-AllPages

    short_slice :
        (ps : List (Tender × ℕ))
        → length (semantic_results S (take f.limit (drop f.offset ps))) ≤ f.limit
    short_slice ps = omega (
      arith,
      length-semantic_results (take f.limit (drop f.offset ps)),
      length-take f.limit (drop f.offset ps),
    )

    abbrev hybrid_results : QueryEmbedding → Result Text (List TenderSearchResult)
    hybrid_results q =
        hybrid_search S.unicode S.postgres S.pgvector S.unit S.backend (S.now w) 60
          (f.limit + f.offset) f q.vector q.provider q.model (S.embeddings w) (table_of w.tenders)

    hybrid-AllPages :
        (q : QueryEmbedding)
        → AllPages (hybrid_results q >>= (λ results. ok (search_response f results)))
    hybrid-AllPages q =
        elim (Bool-cases
          (has_backend S.unicode S.postgres (table_of w.tenders) f (S.now w) S.backend)) [
            | inl h ↦
                let (rs, e, short, all) =
                  hybrid_search_lem S.unicode S.postgres S.pgvector S.unit L S.backend (S.now w) 60
                    (f.limit + f.offset) f q.vector q.provider q.model (S.embeddings w)
                    (table_of w.tenders) h in
                rw e (returned (page rs short))
            | inr h ↦
                let (x, e) =
                  hybrid_search-raised S.unicode S.postgres S.pgvector S.unit L S.backend (S.now w)
                    60 (f.limit + f.offset) f q.vector q.provider q.model (S.embeddings w)
                    (table_of w.tenders) h in
                rw e raises
          ]

    semantic-AllPages :
        (ps : List (Tender × ℕ))
        → AllPages (ok (search_response f (semantic_results S (take f.limit (drop f.offset ps)))))
    semantic-AllPages ps = returned (page _ (short_slice ps))

    by_vector-AllPages : (q : QueryEmbedding) → AllPages (by_vector S f w q)
    unfolding by_vector
    by_vector-AllPages q =
        either-AllPages (not (non_empty q.vector)) _ _
          (without-AllPages (codes "embeddings_disabled")
            (codes "No embedding provider configured."))
          (either-AllPages (not S.pgvector.available) _ _
            (without-AllPages (codes "pgvector_unavailable")
              (codes "pgvector extension is not available in this database."))
            (either-AllPages (is_semantic f.query_mode) _ _
              (semantic-AllPages (
                semantic_search_tenders S.unicode S.postgres S.pgvector S.unit q.vector
                  (f.limit + f.offset) f q.provider q.model (S.embeddings w) (table_of w.tenders)))
              (hybrid-AllPages q)))

    embedded-AllPages : (o : Result Text QueryEmbedding) → AllPages (o >>= (λ q. by_vector S f w q))
    embedded-AllPages (ok q) = by_vector-AllPages q
    embedded-AllPages (raised e) = raises

    respond-AllPages : AllPages (respond S f w)
    unfolding respond
    respond-AllPages =
        either-AllPages _ _ _ (embedded-AllPages (S.embed_query (or_empty f.text)))
          by_words-AllPages

  module _ (f : TenderFilters) (b : IsBounded f) where
    handled-AllPages :
        {A : Type 0} (e : Effect A)
        → AllPages (handle e (λ w' _. (w', respond S f w')) (λ w' x. (w', raised x))).1
    unfolding handle
    handled-AllPages (w, ok a) = respond-AllPages f w b
    handled-AllPages (w, raised x) = raises

    refreshed-AllPages : (refresh : Bool) (w : World) → AllPages (refreshed S refresh f w).1
    unfolding refreshed
    refreshed-AllPages true w = handled-AllPages (S.ingest f w)
    refreshed-AllPages false w = respond-AllPages f w b

  pages :
      (q : Request) (refresh : Bool) (w : World)
      → Outcome S.unicode S.readers q
      → AllPages (search_tenders_tool S q refresh w).1
  unfolding search_tenders_tool
  pages q refresh w (inl (f, e, built)) =
      rw (search_tenders_tool, e) (refreshed-AllPages f built.bounded refresh w)
  pages q refresh w (inr (x, country, e)) = rw (search_tenders_tool, e) (returned tt)

  -- Whatever a request asks for, in every mode, with or without embeddings, pgvector and the backend
  -- of a text, and whatever a refresh does: a response with results holds at most as many as the
  -- limit of its filters, and at most 500; and a country that is not supported changes nothing and
  -- is answered as invalid filters.
  pub search_tenders_tool_lem :
      (q : Request) (refresh : Bool) (w : World)
      → AllPages (search_tenders_tool S q refresh w).1
        × ((e : CountryError)
            → build_filters S.unicode S.readers q ≡ raised e
            → search_tenders_tool S q refresh w ≡ (w, ok (invalid_filters e)))
  unfolding search_tenders_tool
  search_tenders_tool_lem q refresh w = (
    pages q refresh w (build_filters_lem S.unicode S.readers q),
    λ e h. rw (search_tenders_tool, h) refl,
  )
