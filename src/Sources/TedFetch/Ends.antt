-- ===== src/Sources/TedFetch/Ends.antt =====
-- The loop over the pages of TED ends, and its result is a page of matching tenders.
use Prim.Native.Nat.mul
use licitaciones_mcp.Base.{
  ℕ, zero, suc, ◌+◌, ◌*◌, ◌≤◌, ◌≡◌, refl, true, false, Option, none, some, List, [], ◌++◌, length,
  length-append, length-take, keep, All, All-take, All-keep, ltb, inl, inr, Bool-cases, arith,
  list_eq, nat_eq,
}
use mathlib.Core.Path.{subst}
use licitaciones_mcp.Base.Result.{Result, ok, raised, Result-cases}
use licitaciones_mcp.Base.Text.{Text}
use licitaciones_mcp.Base.Unicode.{Unicode}
use licitaciones_mcp.Core.Json.{Json}
use licitaciones_mcp.Core.Models.{Tender, TenderFilters}
use licitaciones_mcp.Core.Parsing.{Readers}
use licitaciones_mcp.Core.Scoring.{tender_matches_filters}
use licitaciones_mcp.Sources.TedFetch.{
  FetchError, Pages, TedResult, page_limit, page_tenders, fetch_pages, result_of, fetch_result,
  fetch,
}
use licitaciones_mcp.Sources.TedQuery.{SearchPayload}

module _ (U : Unicode) (R : Readers) (sha256 : Text → Text) (iso_date : ℕ → Text)
    (service : ℕ → SearchPayload → Result Text Json) (f : TenderFilters) where
  abbrev Ends : Option (Result FetchError Pages) → Type 0
  Ends o = (r : Result FetchError Pages) × (o ≡ some r)

  after_full :
      (n had found now size : ℕ)
      → f.limit ≤ had + suc n * size
      → ltb found size ≡ false
      → now ≡ had + found
      → f.limit ≤ now + n * size
  after_full n had found now size h full e =
      let m : suc n * size ≡ size + n * size = mul.suc n size in
      let k : size ≤ found = ground arith in omega (arith, h, k, e, m)

  fetch_pages-Ends :
      (n : ℕ) (tenders : List Tender) (page : ℕ)
      → f.limit ≤ length tenders + n * page_limit f
      → Ends (fetch_pages U R sha256 iso_date service f (suc n) tenders page)
  unfolding fetch_pages
  fetch_pages-Ends zero tenders page h =
      let e : ltb (length tenders) f.limit ≡ false = ground arith in
      rw (fetch_pages, e) (ok (record { tenders = tenders; page = page }), refl)
  fetch_pages-Ends (suc n) tenders page h = elim (Bool-cases (ltb (length tenders) f.limit)) [
    | inr e ↦ rw (fetch_pages, e) (ok (record { tenders = tenders; page = page }), refl)
    | inl e ↦ elim (Result-cases (page_tenders U R sha256 iso_date service f page)) [
      | inr (x, raises) ↦ rw (fetch_pages, e, raises) (raised x, refl)
      | inl (found, answered) ↦ elim (Bool-cases (ltb (length found) (page_limit f))) [
        | inl short ↦
            rw (fetch_pages, e, answered, short)
              (ok (record { tenders = tenders ++ found; page = page }), refl)
        | inr full ↦
            rw (fetch_pages, e, answered, full)
              (fetch_pages-Ends n (tenders ++ found) (suc page) (
                after_full n (length tenders) (length found) (length (tenders ++ found))
                  (page_limit f) h full (length-append tenders found)))
      ]
    ]
  ]

  fetch_pages-fetch_result :
      (o : Option (Result FetchError Pages))
      → Ends o
      → (r : Result FetchError TedResult) × (fetch_result U R sha256 iso_date service f o ≡ some r)
  fetch_pages-fetch_result o (raised e, p) = rw p (raised e, refl)
  fetch_pages-fetch_result o (ok pages, p) =
      rw p (ok (result_of U R sha256 iso_date service f pages), refl)

  -- What a fetch that returns has found.
  abbrev pub IsResult : Option (Result FetchError TedResult) → Type 0
  IsResult (some (ok r)) =
      (length r.tenders ≤ f.limit) × All (λ t. tender_matches_filters U t f ≡ true) r.tenders
  IsResult _ = Unit

  fetch_result-IsResult :
      (o : Option (Result FetchError Pages))
      → IsResult (fetch_result U R sha256 iso_date service f o)
  unfolding result_of
  fetch_result-IsResult none = tt
  fetch_result-IsResult (some (raised e)) = tt
  fetch_result-IsResult (some (ok p)) = (
    omega (arith, length-take f.limit (keep (λ t. tender_matches_filters U t f) p.tenders)),
    All-take _ f.limit _ (All-keep (λ t. tender_matches_filters U t f) p.tenders),
  )

  -- A fetch ends: fuel for as many full pages as cover the limit, and one turn more, lets it return
  -- or raise, whatever the service answers. What it returns is no longer than the limit, and the
  -- filter function accepts each of its tenders.
  pub fetch_ends :
      (n : ℕ)
      → f.limit ≤ n * page_limit f
      → (r : Result FetchError TedResult) × (fetch U R sha256 iso_date service f (suc n) ≡ some r)
        × IsResult (some r)
  unfolding fetch
  fetch_ends n h =
      let pages = fetch_pages U R sha256 iso_date service f (suc n) [] 1 in
      let (r, ended) =
        fetch_pages-fetch_result pages (fetch_pages-Ends n [] 1 (omega (arith, h))) in
      (r, ended, subst IsResult ended (fetch_result-IsResult pages))
