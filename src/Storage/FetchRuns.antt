-- ===== src/Storage/FetchRuns.antt =====
-- The fetch runs of storage/database.py: `start_source_fetch_run` and `finish_source_fetch_run`, on
-- the table of the runs by id. The JSON columns (filters and metadata) are left out; times are
-- microseconds.
use licitaciones_mcp.Base.{
  ℕ, ◌-◌, ◌/◌, Option, none, some, ◌++◌, take, if◌then◌else◌, list_eq, nat_eq,
}
use licitaciones_mcp.Base.Dict.{Dict, lookup, insert}
use licitaciones_mcp.Base.Result.{Result, ok, raised}
use licitaciones_mcp.Base.Text.{Text, codes, split, join, blank}
use licitaciones_mcp.Core.Models.{SourceFetchRunStatus, running, or_empty}
use licitaciones_mcp.Core.Scoring.{given}

pub record SourceFetchRun : Type 0 where
  pub source : Text
  pub operation : Text
  pub status : SourceFetchRunStatus
  pub dataset_kind : Option Text
  pub year : Option ℕ
  pub month : Option ℕ
  pub source_url : Option Text
  pub source_cursor : Option Text
  pub started_at : ℕ
  pub finished_at : Option ℕ
  pub duration_ms : Option ℕ
  pub tenders_fetched : ℕ
  pub tenders_upserted : ℕ
  pub tenders_skipped : ℕ
  pub error : Option Text

-- The arguments of a start and of a finish.
pub record Attempt : Type 0 where
  pub source : Text
  pub operation : Text
  pub dataset_kind : Option Text
  pub year : Option ℕ
  pub month : Option ℕ
  pub source_url : Option Text

pub record Outcome : Type 0 where
  pub status : SourceFetchRunStatus
  pub tenders_fetched : ℕ
  pub tenders_upserted : ℕ
  pub error : Option Text
  pub source_cursor : Option Text

abbrev pub FetchRuns : Type 0
FetchRuns = Dict Text SourceFetchRun

abbrev pub started_run : Attempt → ℕ → SourceFetchRun
started_run a now = record {
  source = a.source;
  operation = a.operation;
  status = running;
  dataset_kind = a.dataset_kind;
  year = a.year;
  month = a.month;
  source_url = a.source_url;
  source_cursor = none;
  started_at = now;
  finished_at = none;
  duration_ms = none;
  tenders_fetched = 0;
  tenders_upserted = 0;
  tenders_skipped = 0;
  error = none;
}

unfoldable pub start_source_fetch_run : Text → ℕ → Attempt → FetchRuns → FetchRuns
start_source_fetch_run run_id now a runs = insert run_id (started_run a now) runs

unfoldable pub sanitize_error : Option Text → Option Text
sanitize_error error =
    if given error then some (take 2000 (join blank (split (or_empty error)))) else none

abbrev pub finished_run : Outcome → ℕ → SourceFetchRun → SourceFetchRun
finished_run o now r = record r {
  status = o.status;
  finished_at = some now;
  duration_ms = some ((now - r.started_at) / 1000);
  tenders_fetched = o.tenders_fetched;
  tenders_upserted = o.tenders_upserted;
  tenders_skipped = 0;
  error = sanitize_error o.error;
  source_cursor = if given o.source_cursor then o.source_cursor else r.source_cursor;
}

-- The error is the message of the `ValueError`.
unfoldable pub finish_source_fetch_run : Text → ℕ → Outcome → FetchRuns → Result Text FetchRuns
finish_source_fetch_run run_id now o runs = elim (lookup run_id runs) [
  | none ↦ raised (codes "Source fetch run not found: " ++ run_id)
  | some r ↦ ok (insert run_id (finished_run o now r) runs)
]
