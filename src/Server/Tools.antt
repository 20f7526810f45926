-- ===== src/Server/Tools.antt =====
-- server/tools.py: `TenderToolService.search_tenders`, from the request to the response, on the
-- tables of the jobs. What a result shows of its tender is `from_tender` of Core/Public.antt.
pub mod Page
use licitaciones_mcp.Base.{
  ℕ, ◌+◌, ◌-◌, ◌*◌, Bool, true, false, not, ◌&&◌, ◌||◌, Option, none, some, List, [], ◌∷◌, map,
  take, drop, non_empty, if◌then◌else◌,
}
use licitaciones_mcp.Base.Dict.{Dict}
use licitaciones_mcp.Base.Int.{ℤ}
use licitaciones_mcp.Base.Result.{Result, ok, raised, ◌>>=◌}
use licitaciones_mcp.Base.Text.{Text, codes}
use licitaciones_mcp.Base.Unicode.{Unicode}
use licitaciones_mcp.Core.Countries.{CountryError}
use licitaciones_mcp.Core.Models.{
  Tender, TenderFilters, TenderSearchResult, QueryMode, keyword, semantic, hybrid, or_empty,
}
use licitaciones_mcp.Core.Parsing.{Readers}
use licitaciones_mcp.Core.Ranking.{round_half_even}
use licitaciones_mcp.Core.Scoring.{given}
use licitaciones_mcp.Jobs.Ingest.{World, SourceFetchResult, Effect, handle}
use licitaciones_mcp.Server.Filters.{Request, build_filters}
use licitaciones_mcp.Storage.Search.{Postgres, SearchBackend, search_tenders}
use licitaciones_mcp.Storage.Search.Semantic.{
  Embedded, Pgvector, semantic_search_tenders, hybrid_search,
}
use licitaciones_mcp.Storage.Upsert.{TenderRecord}

pub data ToolResponse : Type 0 where
  -- `_search_response`, `_search_error_response` and `_invalid_filters_response`
  search_response : TenderFilters → List TenderSearchResult → ToolResponse
  search_error : TenderFilters → Text → Text → ToolResponse
  invalid_filters : CountryError → ToolResponse

-- What `_embed_query` returns.
pub record QueryEmbedding : Type 0 where
  pub vector : List ℤ
  pub provider : Option Text
  pub model : Option Text

abbrev pub is_semantic : QueryMode → Bool
is_semantic semantic = true
is_semantic _ = false

abbrev pub is_keyword : QueryMode → Bool
is_keyword keyword = true
is_keyword _ = false

-- The tenders of the table, each with the id of its row.
table_of : Dict Text TenderRecord → List Tender
table_of [] = []
table_of ((_, r) ∷ rows) = record r.tender { id = some r.id } ∷ table_of rows

-- What the service uses of the rest of the program and of Postgres. The distance 1.0 is `unit`.
pub record Tools : Type 0 where
  pub unicode : Unicode
  pub readers : Readers
  pub postgres : Postgres
  pub pgvector : Pgvector
  pub unit : ℕ
  pub backend : SearchBackend
  -- the time of the ranking
  pub now : World → ℕ
  -- the table of the embeddings, with the tenders of their rows
  pub embeddings : World → List Embedded
  -- the embedding service, and `ingest_for_filters`
  pub embed_query : Text → Result Text QueryEmbedding
  pub ingest : TenderFilters → World → Effect (List SourceFetchResult)

module _ (S : Tools) where
  -- `round(1.0 - distance, 4)`, not below zero, in millionths
  semantic_score : ℕ → ℕ
  semantic_score distance = 100 * round_half_even (10000 * (S.unit - distance)) S.unit

  semantic_results : List (Tender × ℕ) → List TenderSearchResult
  unfolding semantic_score
  semantic_results [] = []
  semantic_results ((t, distance) ∷ pairs) =
      record { tender = t; score = semantic_score distance; reasons = codes "semantic_match" ∷ [] }
      ∷ semantic_results pairs

  -- A search by words, as the response to a request.
  by_words : TenderFilters → World → Result Text ToolResponse
  unfolding table_of
  by_words f w =
      search_tenders S.unicode S.postgres S.backend (S.now w) (table_of w.tenders) f
      >>= (λ results. ok (search_response f results))

  -- The fallback, and the error of the mode that has none.
  without : TenderFilters → World → Text → Text → Result Text ToolResponse
  unfolding by_words
  without f w error message =
      if is_semantic f.query_mode then ok (search_error f error message) else by_words f w

  by_vector : TenderFilters → World → QueryEmbedding → Result Text ToolResponse
  unfolding semantic_results table_of without
  by_vector f w q =
      if not (non_empty q.vector)
      then without f w (codes "embeddings_disabled") (codes "No embedding provider configured.")
      else if not S.pgvector.available
      then without f w (codes "pgvector_unavailable")
          (codes "pgvector extension is not available in this database.")
      else if is_semantic f.query_mode
      then ok (
          search_response f (
            semantic_results (
              take f.limit (
                drop f.offset (
                  semantic_search_tenders S.unicode S.postgres S.pgvector S.unit q.vector
                    (f.limit + f.offset) f q.provider q.model (S.embeddings w)
                    (table_of w.tenders))))))
      else hybrid_search S.unicode S.postgres S.pgvector S.unit S.backend (S.now w) 60
          (f.limit + f.offset) f q.vector q.provider q.model (S.embeddings w) (table_of w.tenders)
        >>= (λ results. ok (search_response f results))

  unfoldable pub respond : TenderFilters → World → Result Text ToolResponse
  unfolding by_vector by_words
  respond f w =
      if not (is_keyword f.query_mode) && given f.text
      then S.embed_query (or_empty f.text) >>= (λ q. by_vector f w q)
      else by_words f w

  refreshed : Bool → TenderFilters → World → Effect ToolResponse
  unfolding respond
  refreshed refresh f w =
      if refresh
      then handle (S.ingest f w) (λ w' _. (w', respond f w')) (λ w' e. (w', raised e))
      else (w, respond f w)

  unfoldable pub search_tenders_tool : Request → Bool → World → Effect ToolResponse
  unfolding refreshed
  search_tenders_tool q refresh w = elim (build_filters S.unicode S.readers q) [
    | raised e ↦ (w, ok (invalid_filters e))
    | ok f ↦ refreshed refresh f w
  ]
