-- ===== src/Tests.antt =====
-- Data for the tests, and the theorems at concrete inputs: one module for each part of the program.
mod CoreTests
mod StorageTests
mod JobsTests
mod EdgeTests
mod SearchTests
mod SourcesTests
mod ServicesTests
use licitaciones_mcp.Base.{ℕ, ◌*◌, Bool, true, false, Option, none, some, List, [], ◌∷◌}
use licitaciones_mcp.Base.Int.{pos}
use licitaciones_mcp.Base.Reordered.{Reordered}
use licitaciones_mcp.Core.Parsing.{Readers}
use licitaciones_mcp.Jobs.Ingest.{World}
use licitaciones_mcp.Storage.Search.{Postgres, IsPostgres}
use licitaciones_mcp.Storage.Search.Semantic.{Pgvector}
use licitaciones_mcp.Base.Text.{Text, codes}
use licitaciones_mcp.Core.Models.{
  Tender, TenderFilters, TenderSearchResult, bare_tender, default_filters, ted, placsp,
}

abbrev software : Tender
software = record (bare_tender ted (codes "1-2026") (codes "Software")) {
  cpv_codes = codes "72000000" ∷ [];
  buyer_name = some (codes "Ayuntamiento");
}

abbrev other_title : Tender
other_title = record software { title = codes "Software 2" }

abbrev roads : Tender
roads = record (bare_tender placsp (codes "2") (codes "Roads")) {
  cpv_codes = codes "45233000" ∷ [];
}

abbrev software_filters : TenderFilters
software_filters = record default_filters { cpv_codes = codes "72200000" ∷ [] }

abbrev found_software : TenderSearchResult
found_software = record { tender = software; score = 500000; reasons = codes "cpv" ∷ [] }

abbrev same_date : ℕ → Text
same_date day = codes "2026-01-01"

abbrev plain_sha : Text → Text
plain_sha s = s

-- A database in which every text matches and the rows stand in their order.
abbrev pub database : Postgres
database = record {
  ilike = λ value pattern. true;
  like = λ value pattern. true;
  upper = λ s. s;
  lower = λ s. s;
  btrim = λ s. s;
  day_start = λ n. n * 86400000000;
  fts = λ q t. true;
  similar = λ value q. false;
  bm25_available = true;
  bm25_match = λ q t. true;
  by_bm25 = λ q rows. rows;
  by_ts_rank = λ q rows. rows;
  by_published_at = λ rows. rows;
}

abbrev pub database-IsPostgres : IsPostgres database
database-IsPostgres = record {
  by_bm25_rows = λ q rows. Reordered.same rows;
  by_ts_rank_rows = λ q rows. Reordered.same rows;
  by_published_at_rows = λ rows. Reordered.same rows;
}

abbrev pub vectors : Pgvector
vectors = record {
  available = true;
  distance = λ v e. 250;
  by_distance = λ v rows. rows;
  any_order = λ rows. rows;
}

-- Readers that find no moment and no amount.
abbrev pub no_readers : Readers
no_readers = record {
  fromisoformat = λ s. none;
  strptime = λ s fmt. none;
  decimal = λ s. none;
  float_of = λ s. pos 0;
  is_zero = λ s. false;
  repr = λ j. [];
}

abbrev pub two_rows : List Tender
two_rows = software ∷ roads ∷ []

abbrev pub empty_world : World
empty_world = record {
  ticks = 0;
  fetch_runs = [];
  tenders = [];
  job_runs = [];
  job_results = [];
  last_run_at = [];
}
