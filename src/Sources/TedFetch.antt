-- ===== src/Sources/TedFetch.antt =====
-- sources/ted.py: `TEDClient.fetch`, the loop over the pages of a search. The service is a parameter:
-- the JSON that it gives for the request of a number, or the text of an error.
pub mod Ends
use licitaciones_mcp.Base.{
  ℕ, zero, suc, ◌+◌, max, min, Bool, true, false, Option, none, some, List, [], ◌++◌, length, take,
  keep, if◌then◌else◌, ltb, list_eq, nat_eq,
}
use licitaciones_mcp.Base.Result.{Result, ok, raised, ◌>>=◌}
use licitaciones_mcp.Base.Text.{Text, codes}
use licitaciones_mcp.Base.Unicode.{Unicode}
use licitaciones_mcp.Core.Countries.{CountryError}
use licitaciones_mcp.Core.Json.{Json}
use licitaciones_mcp.Core.Models.{Tender, TenderFilters}
use licitaciones_mcp.Core.Parsing.{Readers}
use licitaciones_mcp.Core.Scoring.{tender_matches_filters}
use licitaciones_mcp.Sources.TedNotice.{NoticeError}
use licitaciones_mcp.Sources.TedQuery.{SearchPayload, build_ted_search_payload}
use licitaciones_mcp.Sources.TedResponse.{parse_ted_search_response}

pub data FetchError : Type 0 where
  of_payload : CountryError → FetchError
  of_service : Text → FetchError
  of_notice : NoticeError → FetchError

-- The tenders of all the pages, before the cut, and the number of the last page.
pub record Pages : Type 0 where
  pub tenders : List Tender
  pub page : ℕ

pub record TedResult : Type 0 where
  pub tenders : List Tender
  pub pages : ℕ
  pub limit : ℕ

unfoldable pub page_limit : TenderFilters → ℕ
page_limit f = max 1 (min f.limit 100)

abbrev pub lift_error {ℓ κ} :
    {E : Type ℓ} {A : Type κ} → (E → FetchError) → Result E A → Result FetchError A
lift_error wrap (ok a) = ok a
lift_error wrap (raised e) = raised (wrap e)

module _ (U : Unicode) (R : Readers) (sha256 : Text → Text) (iso_date : ℕ → Text)
    (service : ℕ → SearchPayload → Result Text Json) (f : TenderFilters) where
  -- One turn of the loop: the tenders of a page.
  unfoldable pub page_tenders : ℕ → Result FetchError (List Tender)
  unfolding page_limit
  page_tenders page =
      lift_error of_payload (build_ted_search_payload U f page (some (page_limit f)))
      >>= (λ payload. lift_error of_service (service page payload) >>= (λ answer.
          lift_error of_notice (parse_ted_search_response U R sha256 iso_date answer)))

  -- The loop on fuel: `none` if the fuel does not last.
  fetch_pages : ℕ → List Tender → ℕ → Option (Result FetchError Pages)
  unfolding page_tenders page_limit
  fetch_pages zero tenders page = none
  fetch_pages (suc fuel) tenders page = elim (ltb (length tenders) f.limit) [
    | false ↦ some (ok (record { tenders = tenders; page = page }))
    | true ↦ elim (page_tenders page) [
      | raised e ↦ some (raised e)
      | ok found ↦ elim (ltb (length found) (page_limit f)) [
        | true ↦ some (ok (record { tenders = tenders ++ found; page = page }))
        | false ↦ fetch_pages fuel (tenders ++ found) (suc page)
      ]
    ]
  ]

  abbrev result_of : Pages → TedResult
  unfolding page_limit
  result_of p = record {
    tenders = take f.limit (keep (λ t. tender_matches_filters U t f) p.tenders);
    pages = p.page;
    limit = page_limit f;
  }

  abbrev fetch_result : Option (Result FetchError Pages) → Option (Result FetchError TedResult)
  fetch_result none = none
  fetch_result (some (raised e)) = some (raised e)
  fetch_result (some (ok p)) = some (ok (result_of p))

  unfoldable pub fetch : ℕ → Option (Result FetchError TedResult)
  unfolding fetch_pages
  fetch fuel = fetch_result (fetch_pages fuel [] 1)
