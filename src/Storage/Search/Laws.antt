-- ===== src/Storage/Search/Laws.antt =====
-- What a search of the tables returns, and that without a text it loses no row.
use licitaciones_mcp.Base.{
  All-self, All-kept, ℕ, zero, suc, ◌≤◌, ◌≡◌, refl, sym, Bool, true, false, ◌||◌, not, some, List,
  [], ◌∷◌, map, All, Any, All-take, All-drop, arith, keep, length, length-take, take, drop, inl,
  inr, Bool-cases, list_eq, nat_eq, if◌then◌else◌,
}
use licitaciones_mcp.Base.Reordered.{All-Reordered}
use licitaciones_mcp.Base.Dict.{lookup}
use licitaciones_mcp.Base.Result.{Result, ok, raised, some-injective}
use licitaciones_mcp.Base.Sort.{sorted-All}
use licitaciones_mcp.Base.Text.{Text}
use licitaciones_mcp.Base.Unicode.{Unicode}
use licitaciones_mcp.Core.Models.{Tender, TenderFilters, TenderSearchResult, or_empty, source_id}
use licitaciones_mcp.Core.Ranking.{score_tender, in_order, sort_results, rank_tenders}
use licitaciones_mcp.Core.Scoring.{given, tender_matches_filters}
use licitaciones_mcp.Storage.Retrieval.{results_from_retrieval_order, search_candidate_limit}
use licitaciones_mcp.Storage.Retrieval.Laws.{get_elem?, IsAtPlace, results_from_retrieval_order_lem}
use licitaciones_mcp.Storage.Search.{
  Postgres, IsPostgres, SearchBackend, bm25, fts, structured_filters, text_filter, select_by_text,
  select_rows, match_reason, results_of, search_tenders,
}

module _ {ℓ κ} {A : Type ℓ} (P : A → Type κ) where
  -- Each element that is kept was there, and passes the test.
  pub All-keep_more :
      (p : A → Bool) (xs : List A) → All P xs → All (λ x. P x × (p x ≡ true)) (keep p xs)
  unfolding keep
  All-keep_more p [] h = tt
  All-keep_more p (x ∷ xs) h = elim (Bool-cases (p x)) [
    | inl e ↦ rw e ((h.0, e), All-keep_more p xs h.1)
    | inr e ↦ rw e (All-keep_more p xs h.1)
  ]

  pub All_at : (xs : List A) (i : ℕ) (a : A) → All P xs → get_elem? xs i ≡ some a → P a
  All_at [] i a h e = cc
  All_at (x ∷ xs) zero a h e = rw (sym (some-injective e)) h.0
  All_at (x ∷ xs) (suc i) a h e = All_at xs i a h.1 e

module _ (U : Unicode) (D : Postgres) where
  -- The result is a row of the table that meets the conditions of the statement, and the filter
  -- function accepts it.
  pub record IsFound (table : List Tender) (f : TenderFilters) (r : TenderSearchResult)
      : Type 0 where
    pub in_table : Any (λ t. t ≡ r.tender) table
    pub by_statement : structured_filters U D f r.tender ≡ true
    pub by_function : tender_matches_filters U r.tender f ≡ true

  abbrev IsRow : List Tender → TenderFilters → Tender → Type 0
  IsRow table f t = Any (λ u. u ≡ t) table × (structured_filters U D f t ≡ true)

  rows-IsRow :
      (table : List Tender) (f : TenderFilters)
      → All (IsRow table f) (keep (structured_filters U D f) table)
  rows-IsRow table f = All-keep_more _ (structured_filters U D f) table (All-self table)

  module _ (table : List Tender) (f : TenderFilters) (now : ℕ) where
    at_place :
        (reasons : List Text) (tenders : List Tender) (rs : List TenderSearchResult)
        → All (IsRow table f) tenders
        → All (IsAtPlace U f reasons 1 tenders) rs
        → All (IsFound table f) rs
    at_place reasons tenders [] h k = tt
    at_place reasons tenders (r ∷ rs) h ((i, e, s, m), k) =
        let row = All_at (IsRow table f) tenders i r.tender h e in
        (
          record { in_table = row.0; by_statement = row.1; by_function = m },
          at_place reasons tenders rs h k,
        )

    scored-IsFound :
        (ts : List Tender)
        → All (λ t. IsRow table f t × (tender_matches_filters U t f ≡ true)) ts
        → All (IsFound table f) (map (λ t. score_tender U now t f (lookup (source_id t) [])) ts)
    unfolding score_tender
    scored-IsFound [] h = tt
    scored-IsFound (t ∷ ts) h = (
      record { in_table = h.0.0.0; by_statement = h.0.0.1; by_function = h.0.1 },
      scored-IsFound ts h.1,
    )

    length-rank_tenders :
        (tenders : List Tender) → length (rank_tenders U now tenders f []) ≤ f.limit
    unfolding rank_tenders
    length-rank_tenders tenders = omega (
      arith,
      length-take f.limit (
          drop f.offset (
            sort_results
              (map (λ t. score_tender U now t f (lookup (source_id t) []))
                (keep (λ t. tender_matches_filters U t f) tenders))
              f)),
    )

    rank_tenders-IsFound :
        (tenders : List Tender)
        → All (IsRow table f) tenders
        → All (IsFound table f) (rank_tenders U now tenders f [])
    unfolding rank_tenders sort_results
    rank_tenders-IsFound tenders h = All-take (IsFound table f) f.limit _ (
        All-drop (IsFound table f) f.offset _ (
          sorted-All (in_order f.order_by f.order) (IsFound table f) _ (
            scored-IsFound (keep (λ t. tender_matches_filters U t f) tenders)
              (All-keep_more (IsRow table f) (λ t. tender_matches_filters U t f) tenders h))))

    -- The backend that the statement needs is there.
    abbrev pub has_backend : SearchBackend → Bool
    has_backend bm25 = not (given f.text) || D.bm25_available
    has_backend fts = true

    module _ (L : IsPostgres D) where
      rows : List Tender
      rows = keep (structured_filters U D f) table

      abbrev Selected : Result Text (List Tender) → Type 0
      Selected r = (found : List Tender) × (r ≡ ok found) × All (IsRow table f) found

      select_rows-IsRow :
          (backend : SearchBackend)
          → has_backend backend ≡ true
          → Selected (select_rows U D backend f table)
      unfolding select_rows select_by_text
      select_rows-IsRow bm25 h = elim (Bool-cases (given f.text)) [
        | inl g ↦
            let a : D.bm25_available ≡ true = ground arith in
            rw (g, a)
              (
                D.by_bm25 (or_empty f.text)
                    (keep (D.bm25_match (or_empty f.text)) (keep (structured_filters U D f) table)),
                refl,
                All-Reordered (IsRow table f) (L.by_bm25_rows (or_empty f.text) _) (
                    All-kept (IsRow table f) (D.bm25_match (or_empty f.text)) _
                      (rows-IsRow table f)),
              )
        | inr g ↦ rw g (
          D.by_published_at (keep (structured_filters U D f) table),
          refl,
          All-Reordered (IsRow table f) (L.by_published_at_rows _) (rows-IsRow table f),
        )
      ]
      select_rows-IsRow fts h = elim (Bool-cases (given f.text)) [
        | inl g ↦ rw g (
          D.by_ts_rank (or_empty f.text)
              (keep (text_filter U D (or_empty f.text)) (keep (structured_filters U D f) table)),
          refl,
          All-Reordered (IsRow table f) (L.by_ts_rank_rows (or_empty f.text) _)
              (All-kept (IsRow table f) (text_filter U D (or_empty f.text)) _ (rows-IsRow table f)),
        )
        | inr g ↦ rw g (
          D.by_published_at (keep (structured_filters U D f) table),
          refl,
          All-Reordered (IsRow table f) (L.by_published_at_rows _) (rows-IsRow table f),
        )
      ]

      page_of : SearchBackend → List Tender → List TenderSearchResult
      page_of backend found =
          let tenders = take (search_candidate_limit f) found in
          if given f.text
          then results_from_retrieval_order U f (match_reason backend ∷ []) tenders
          else rank_tenders U now tenders f []

      page_of-IsFound :
          (backend : SearchBackend) (found : List Tender)
          → All (IsRow table f) found
          → let page = page_of backend found in (length page ≤ f.limit) × All (IsFound table f) page
      unfolding page_of
      page_of-IsFound backend found h =
          let window = search_candidate_limit f in
          let kept = All-take (IsRow table f) window found h in
          elim (Bool-cases (given f.text)) [
            | inl g ↦
                let placed =
                  results_from_retrieval_order_lem U f (match_reason backend ∷ [])
                    (take window found) in
                rw g (
                  placed.0,
                  at_place (match_reason backend ∷ []) (take window found) _ kept placed.1,
                )
            | inr g ↦ rw g (
              length-rank_tenders (take window found),
              rank_tenders-IsFound (take window found) kept,
            )
          ]

      select_rows-raised :
          (backend : SearchBackend)
          → has_backend backend ≡ false
          → (e : Text) × (select_rows U D backend f table ≡ raised e)
      unfolding select_rows select_by_text
      select_rows-raised bm25 h =
          let g : given f.text ≡ true = ground arith in
          let a : D.bm25_available ≡ false = ground arith in rw (g, a) (_, refl)
      select_rows-raised fts h = cc

      -- Where the backend that a text needs is there, a search returns a page: no longer than the
      -- limit, and each result is a row of the table that meets every condition of the statement
      -- and that the filter function accepts. Where it is not there, the search raises.
      pub search_tenders_lem :
          (backend : SearchBackend)
          → (has_backend backend ≡ true
              → (page : List TenderSearchResult) × (search_tenders U D backend now table f
                  ≡ ok page)
                × (length page ≤ f.limit)
                × All (IsFound table f) page)
            × (has_backend backend ≡ false
                → (e : Text) × (search_tenders U D backend now table f ≡ raised e))
      unfolding search_tenders results_of page_of
      search_tenders_lem backend = (
        λ h.
            let (found, selected, all) = select_rows-IsRow backend h in
            let (short, each) = page_of-IsFound backend found all in
            (page_of backend found, rw selected refl, short, each),
        λ h. let (e, selected) = select_rows-raised backend h in (e, rw selected refl),
      )
