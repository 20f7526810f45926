-- ===== src/Tests/SearchTests.antt =====
-- The searches of storage/database.py and the tool of server/tools.py at concrete inputs.
use licitaciones_mcp.Base.{
  ◌-◌, ◌≤◌, min, ◌≡◌, refl, true, false, none, some, List, [], ◌∷◌, All, length, length-keep, keep,
  arith, list_eq, nat_eq, if◌then◌else◌,
}
use licitaciones_mcp.Base.Int.{pos, negsuc}
use licitaciones_mcp.Base.Result.{ok, raised}
use licitaciones_mcp.Base.Sort.{IsSorted}
use licitaciones_mcp.Base.Text.{Text, codes, strip, is_space}
use licitaciones_mcp.Base.Unicode.{ascii_only}
use licitaciones_mcp.Core.Countries.{CountryError, country_or_xx, normalize_country_code}
use licitaciones_mcp.Core.Models.{
  Tender, TenderSearchResult, default_filters, by_score, desc, semantic, or_empty, source_id,
}
use licitaciones_mcp.Core.Normalization.{listed}
use licitaciones_mcp.Core.Ranking.{rank_tenders}
use licitaciones_mcp.Core.Scoring.{given, tender_matches_filters}
use licitaciones_mcp.Server.Filters.{Request, build_filters}
use licitaciones_mcp.Server.Filters.Built.{Outcome, build_filters_lem}
use licitaciones_mcp.Server.Tools.{Tools, invalid_filters, search_tenders_tool}
use licitaciones_mcp.Server.Tools.Page.{AllPages, search_tenders_tool_lem}
use licitaciones_mcp.Storage.Facets.{before_top, values_of_rows, facet_counts}
use licitaciones_mcp.Storage.Facets.Counts.{IsCount, IsPlaced, facet_counts_lem}
use licitaciones_mcp.Storage.Hybrid.Laws.{IsMatching}
use licitaciones_mcp.Storage.Records.{TenderColumns, apply_tender, record_to_tender}
use licitaciones_mcp.Storage.Records.RoundTrip.{tender_in_utc, record_to_tender-apply_tender}
use licitaciones_mcp.Storage.Retrieval.{search_candidate_limit}
use licitaciones_mcp.Storage.Search.{fts, bm25, structured_filters, search_tenders}
use licitaciones_mcp.Storage.Search.Complete.{
  HasCode, search_tenders-HasCode, search_tenders_complete,
}
use licitaciones_mcp.Storage.Search.Laws.{IsFound, has_backend, search_tenders_lem}
use licitaciones_mcp.Storage.Search.Semantic.{hybrid_search}
use licitaciones_mcp.Storage.Search.Semantic.Laws.{hybrid_search_lem}
use licitaciones_mcp.Tests.{
  software, software_filters, two_rows, database, database-IsPostgres, vectors, no_readers,
  empty_world,
}

search_tenders_lem_example :
    (has_backend ascii_only database two_rows software_filters 0 fts ≡ true
      → (page : List TenderSearchResult) × (search_tenders ascii_only database fts 0 two_rows
            software_filters
          ≡ ok page)
        × (length page ≤ 20)
        × All (IsFound ascii_only database two_rows software_filters) page)
    × (has_backend ascii_only database two_rows software_filters 0 fts ≡ false
        → (e : Text) × (search_tenders ascii_only database fts 0 two_rows software_filters
            ≡ raised e))
search_tenders_lem_example =
    search_tenders_lem ascii_only database two_rows software_filters 0 database-IsPostgres fts

search_tenders-HasCode_example :
    (page : List TenderSearchResult) × (search_tenders ascii_only database bm25 0 two_rows
        software_filters
      ≡ ok page)
    × All (λ r. HasCode ascii_only database software_filters r.tender) page
search_tenders-HasCode_example =
    search_tenders-HasCode ascii_only database two_rows software_filters 0 database-IsPostgres bm25
      refl refl

two_fit :
    length (keep (structured_filters ascii_only database default_filters) two_rows)
    ≤ search_candidate_limit default_filters
unfolding search_candidate_limit
two_fit =
    omega (arith, length-keep (structured_filters ascii_only database default_filters) two_rows)

search_tenders_complete_example :
    let rows = keep (structured_filters ascii_only database default_filters) two_rows in
    (search_tenders ascii_only database fts 0 two_rows default_filters
      ≡ ok (rank_tenders ascii_only 0 rows default_filters []))
    × (length (rank_tenders ascii_only 0 rows default_filters [])
        ≡ min 20
            (length (keep (λ t. tender_matches_filters ascii_only t default_filters) rows) - 0))
search_tenders_complete_example =
    search_tenders_complete ascii_only database two_rows default_filters 0 database-IsPostgres fts
      refl two_fit

hybrid_search_lem_example :
    (page : List TenderSearchResult) × (hybrid_search ascii_only database vectors 1000 fts 0 60 20
        software_filters
        (pos 1 ∷ [])
        none
        none
        []
        two_rows
      ≡ ok page)
    × (length page ≤ 20)
    × All (IsMatching ascii_only software_filters) page
hybrid_search_lem_example =
    hybrid_search_lem ascii_only database vectors 1000 database-IsPostgres fts 0 60 20
      software_filters (pos 1 ∷ []) none none [] two_rows refl

abbrev request : Request
request = record {
  text = some (codes "software");
  cpv_codes = listed (codes "72000000" ∷ []);
  cpv_prefixes = listed [];
  nuts_codes = [];
  regions = [];
  buyer = none;
  statuses = codes "open" ∷ codes "OPEN" ∷ [];
  sources = [];
  procedure_types = [];
  contract_types = [];
  notice_types = [];
  dataset_kinds = [];
  only_open = false;
  published_from = none;
  published_to = none;
  deadline_from = none;
  deadline_to = none;
  min_value = none;
  max_value = none;
  country = some (codes "es");
  limit = pos 5000;
  offset = negsuc 3;
  order_by = by_score;
  order = desc;
  query_mode = semantic;
}

build_filters_lem_example : Outcome ascii_only no_readers request
build_filters_lem_example = build_filters_lem ascii_only no_readers request

abbrev service : Tools
service = record {
  unicode = ascii_only;
  readers = no_readers;
  postgres = database;
  pgvector = vectors;
  unit = 1000;
  backend = fts;
  now = λ w. w.ticks;
  embeddings = λ w. [];
  embed_query = λ s. ok (record { vector = pos 1 ∷ []; provider = none; model = none });
  ingest = λ f w. (w, raised (codes "timeout"));
}

search_tenders_tool_lem_example :
    AllPages service database-IsPostgres (search_tenders_tool service request false empty_world).1
    × ((e : CountryError)
        → build_filters ascii_only no_readers request ≡ raised e
        → search_tenders_tool service request false empty_world
          ≡ (empty_world, ok (invalid_filters e)))
search_tenders_tool_lem_example =
    search_tenders_tool_lem service database-IsPostgres request false empty_world

facet_counts_lem_example :
    let listed = facet_counts ascii_only (codes "buyers") two_rows 5 in
    (length listed ≤ 5)
    × IsSorted before_top listed
    × All (IsCount (values_of_rows ascii_only (codes "buyers") two_rows)) listed
    × All
        (IsPlaced (values_of_rows ascii_only (codes "buyers") two_rows) 5 listed)
        (values_of_rows ascii_only (codes "buyers") two_rows)
facet_counts_lem_example = facet_counts_lem ascii_only (codes "buyers") two_rows 5

-- A row that has been written once already.
abbrev row : TenderColumns
row = record {
  id = codes "t-1";
  source = codes "placsp";
  external_id = codes "2";
  dedupe_key = codes "placsp:2";
  title = codes "Roads";
  summary = none;
  buyer_name = none;
  buyer_tax_id = none;
  status = codes "unknown";
  cpv_codes = [];
  nuts_codes = [];
  region = none;
  country = codes "ES";
  procedure_type = none;
  contract_type = none;
  notice_type = none;
  estimated_value = none;
  award_value = none;
  currency = none;
  published_at = none;
  deadline_at = none;
  awarded_at = none;
  winner_name = none;
  winner_tax_id = none;
  url = none;
  raw = software.raw;
  source_metadata = [];
  quality_issues = [];
  documents = [];
}

spain : country_or_xx ascii_only (some (codes "ES")) ≡ codes "ES"
unfolding country_or_xx normalize_country_code strip is_space ascii_only
spain = refl

-- Published half an hour after midnight in a zone that is one hour ahead of UTC.
abbrev dated : Tender
dated = record software { published_at = some (record { instant = 84600000000; date = 1 }) }

record_to_tender-apply_tender_example :
    record_to_tender ascii_only (apply_tender row dated) true
    ≡ ok (record (tender_in_utc dated) {
      id = some (codes "t-1");
      dedupe_key =
          some (if given dated.dedupe_key then or_empty dated.dedupe_key else source_id dated);
    })
record_to_tender-apply_tender_example = record_to_tender-apply_tender ascii_only row dated spain
