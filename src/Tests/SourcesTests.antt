-- ===== src/Tests/SourcesTests.antt =====
-- The sources at concrete inputs: a page of TED with one notice, and an archive of PLACSP.
use licitaciones_mcp.Base.{
  ℕ, ◌*◌, ◌≤◌, ◌≡◌, refl, none, some, List, [], ◌∷◌, All, any, keep, contains, arith, list_eq,
  nat_eq,
}
use licitaciones_mcp.Base.Result.{Result, ok}
use licitaciones_mcp.Base.Text.{Text, codes, join, split, is_space, occurs_in, is_ascii}
use licitaciones_mcp.Base.Unicode.{ascii_only}
use licitaciones_mcp.Core.Dedupe.{attach_dedupe_key}
use licitaciones_mcp.Core.Json.{Json, Fields, Items, get}
use licitaciones_mcp.Core.Models.{Tender, default_filters}
use licitaciones_mcp.Core.Catalogs.{placsp_notice_status}
use licitaciones_mcp.Core.Normalization.{normalize_text, fold_text}
use licitaciones_mcp.Sources.Placsp.{Xml}
use licitaciones_mcp.Sources.Placsp.Entry.{Formats}
use licitaciones_mcp.Sources.Placsp.Feed.{is_feed_name, Member, PlacspService, parse_placsp_zip}
use licitaciones_mcp.Sources.Placsp.Feed.Tenders.{Archived, parse_placsp_zip-Archived}
use licitaciones_mcp.Sources.Placsp.Notice.{normalize_placsp_notice_type}
use licitaciones_mcp.Sources.TedFetch.{FetchError, TedResult, page_limit, fetch}
use licitaciones_mcp.Sources.TedFetch.Ends.{IsResult, fetch_ends}
use licitaciones_mcp.Sources.TedQuery.{SearchPayload}
use licitaciones_mcp.Sources.TedResponse.{parse_ted_search_response, notice_tender, Amounts}
use licitaciones_mcp.Sources.TedResponse.Tenders.{
  IsTedTender, parse_ted_search_response-IsTedTender,
}
use licitaciones_mcp.Tests.{same_date, plain_sha, no_readers}

abbrev notice : Fields
notice =
    Fields.field (codes "publication-number") (Json.text (codes "1-2026"))
      (Fields.field (codes "notice-title") (Json.text (codes "Software")) Fields.end)

abbrev page : Json
page = Json.object (
    Fields.field (codes "notices") (Json.array (Items.cons (Json.object notice) Items.nil))
      Fields.end)

abbrev no_amounts : Amounts
no_amounts = record {
  estimated_value = none;
  award_value = none;
  published_at = none;
  deadline_at = none;
}

abbrev page_tender : Tender
page_tender =
    attach_dedupe_key ascii_only plain_sha same_date
      (notice_tender ascii_only no_readers notice (codes "1-2026") (codes "Software") no_amounts)

page_parsed :
    parse_ted_search_response ascii_only no_readers plain_sha same_date page ≡ ok (page_tender ∷ [])
unfolding parse_ted_search_response get list_eq
page_parsed = refl

parse_ted_search_response-IsTedTender_example : All (IsTedTender ascii_only) (page_tender ∷ [])
parse_ted_search_response-IsTedTender_example =
    parse_ted_search_response-IsTedTender ascii_only no_readers plain_sha same_date page
      (page_tender ∷ []) page_parsed

-- A service that gives that page whatever it is asked for.
abbrev one_page : ℕ → SearchPayload → Result Text Json
one_page n payload = ok page

one_page_covers : default_filters.limit ≤ 1 * page_limit default_filters
unfolding page_limit
one_page_covers = omega arith

fetch_ends_example :
    (r : Result FetchError TedResult) × (fetch ascii_only no_readers plain_sha same_date one_page
        default_filters 2
      ≡ some r)
    × IsResult ascii_only no_readers plain_sha same_date one_page default_filters (some r)
fetch_ends_example =
    fetch_ends ascii_only no_readers plain_sha same_date one_page default_filters 1 one_page_covers

-- A tree of one element, an entry, all of whose texts are the same.
abbrev one_entry : Xml Unit
one_entry = record {
  tag = λ e. codes "entry";
  text = λ e. some (codes "72000000");
  attrib = λ name e. none;
  iter = λ e. e ∷ [];
  find = λ xpath e. some e;
  findall = λ xpath e. e ∷ [];
  find_atom = λ xpath e. some e;
  findall_atom = λ xpath e. [];
}

abbrev formats : Formats
formats = record { amount = λ n. []; int_text = λ s. s }

abbrev archives : PlacspService Unit
archives = record { fromstring = λ s. ok tt; get_feed = λ url. ok []; get_archive = λ url. ok [] }

abbrev members : List Member
members = (codes "a.atom", []) ∷ (codes "b.ATOM", []) ∷ (codes "notes.txt", []) ∷ []

parse_placsp_zip-Archived_example :
    Archived one_entry ascii_only no_readers formats plain_sha same_date archives []
      (some 1)
      (keep
        (λ (name, _).
          is_feed_name one_entry ascii_only no_readers formats plain_sha same_date archives name)
        members)
      (parse_placsp_zip one_entry ascii_only no_readers formats plain_sha same_date archives members
        []
        (some 1))
parse_placsp_zip-Archived_example =
    parse_placsp_zip-Archived one_entry ascii_only no_readers formats plain_sha same_date archives
      [] members (some 1)

-- The label that the catalog has for EV gives ADJ.
label_of_ev :
    normalize_placsp_notice_type ascii_only (some (codes "Pendiente de adjudicacion"))
    ≡ some (codes "ADJ")
unfolding normalize_placsp_notice_type normalize_text join split is_space contains
    placsp_notice_status list_eq ascii_only any occurs_in fold_text keep is_ascii
label_of_ev = refl
