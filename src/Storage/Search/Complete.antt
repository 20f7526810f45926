-- ===== src/Storage/Search/Complete.antt =====
-- What the conditions of the statement add to the filter function, and that a search without a
-- text loses no row while the rows fit the window of candidates.
use licitaciones_mcp.Base.{
  All-map, ℕ, ◌-◌, ◌≤◌, min, ◌≡◌, refl, sym, ap, ◌∙◌, true, false, List, [], ◌∷◌, map, All, arith,
  keep, length, length-take, length-drop, drop, take_all, any, list_eq, nat_eq, contains, non_empty,
}
use licitaciones_mcp.Base.Dict.{lookup}
use licitaciones_mcp.Base.Reordered.{length-Reordered, length-keep-Reordered}
use licitaciones_mcp.Base.Result.{ok}
use licitaciones_mcp.Base.Sort.{length-sorted}
use licitaciones_mcp.Base.Unicode.{Unicode}
use licitaciones_mcp.Core.Models.{Tender, TenderFilters, TenderSearchResult, source_id}
use licitaciones_mcp.Core.Normalization.{normalize_cpv_codes, listed}
use licitaciones_mcp.Core.Ranking.{score_tender, in_order, sort_results, rank_tenders}
use licitaciones_mcp.Core.Scoring.{given, tender_matches_filters}
use licitaciones_mcp.Storage.Retrieval.{search_candidate_limit}
use licitaciones_mcp.Storage.Search.{
  Postgres, IsPostgres, SearchBackend, structured_filters, code_conditions, select_rows, results_of,
  search_tenders,
}
use licitaciones_mcp.Storage.Search.Laws.{has_backend, search_tenders_lem}

length-map {ℓ κ} :
    {A : Type ℓ} {B : Type κ} (f : A → B) (xs : List A) → length (map f xs) ≡ length xs
length-map f [] = refl
length-map f (x ∷ xs) = omega (arith, length-map f xs)

module _ (U : Unicode) (D : Postgres) where
  -- A code of the tender is one of the wanted codes.
  abbrev pub HasCode : TenderFilters → Tender → Type 0
  HasCode f t =
      any (λ cpv. contains (normalize_cpv_codes U (listed f.cpv_codes)) cpv) t.cpv_codes ≡ true

  structured_filters-HasCode :
      (f : TenderFilters) (t : Tender)
      → non_empty f.cpv_codes ≡ true
      → structured_filters U D f t ≡ true
      → HasCode f t
  unfolding structured_filters code_conditions
  structured_filters-HasCode f t h s = ground arith

  -- A search for CPV codes, where its backend is there, returns only tenders that have one of the
  -- wanted codes, all eight digits of it.
  pub search_tenders-HasCode :
      (table : List Tender) (f : TenderFilters) (now : ℕ)
      → IsPostgres D
      → (backend : SearchBackend) → has_backend U D table f now backend ≡ true
      → non_empty f.cpv_codes ≡ true
      → (page : List TenderSearchResult) × (search_tenders U D backend now table f ≡ ok page)
        × All (λ r. HasCode f r.tender) page
  search_tenders-HasCode table f now L backend h wanted =
      let (page, found, short, all) = (search_tenders_lem U D table f now L backend).0 h in
      (
        page,
        found,
        All-map (λ r m. structured_filters-HasCode f r.tender wanted m.by_statement) page all,
      )

  length-rank_tenders :
      (now : ℕ) (tenders : List Tender) (f : TenderFilters)
      → length (rank_tenders U now tenders f [])
        ≡ min f.limit (length (keep (λ t. tender_matches_filters U t f) tenders) - f.offset)
  unfolding rank_tenders sort_results
  length-rank_tenders now tenders f =
      let scored =
        map (λ t. score_tender U now t f (lookup (source_id t) []))
          (keep (λ t. tender_matches_filters U t f) tenders) in
      let sorted_results = sort_results scored f in
      omega (
        arith,
        length-take f.limit (drop f.offset sorted_results),
        length-drop f.offset sorted_results,
        length-sorted (in_order f.order_by f.order) scored,
        length-map (λ t. score_tender U now t f (lookup (source_id t) []))
            (keep (λ t. tender_matches_filters U t f) tenders),
      )

  -- A search without a text, where the rows that meet the conditions fit the window, is the ranking
  -- of all these rows, and its page has as many results as there are rows left that the filter
  -- function accepts: none is lost to the window.
  pub search_tenders_complete :
      (table : List Tender) (f : TenderFilters) (now : ℕ)
      → IsPostgres D
      → (backend : SearchBackend) → given f.text ≡ false
      → length (keep (structured_filters U D f) table) ≤ search_candidate_limit f
      → (search_tenders U D backend now table f
          ≡ ok
              (rank_tenders U now (D.by_published_at (keep (structured_filters U D f) table)) f []))
        × (length
              (rank_tenders U now (D.by_published_at (keep (structured_filters U D f) table)) f [])
            ≡ min f.limit (
                length
                  (keep (λ t. tender_matches_filters U t f) (keep (structured_filters U D f) table))
                - f.offset))
  unfolding search_tenders results_of select_rows
  search_tenders_complete table f now L backend g fits =
      let rows = keep (structured_filters U D f) table in
      let order = L.by_published_at_rows rows in
      (
        rw
            (
              g,
              take_all (search_candidate_limit f) (D.by_published_at rows)
                  (omega (arith, fits, length-Reordered order)),
              g,
            )
            refl,
        length-rank_tenders now (D.by_published_at rows) f
            ∙ ap (λ n. min f.limit (n - f.offset))
                (sym (length-keep-Reordered (λ t. tender_matches_filters U t f) order)),
      )
