-- ===== src/Jobs/Runner.antt =====
-- `DailyJobRunner.run_job` of jobs/runner.py, with `start_job_run` and `finish_job_run` of
-- storage/database.py. The ingest and the search of the database are parameters.
pub mod Status
pub mod Due
use licitaciones_mcp.Base.{
  ℕ, suc, ◌≡◌, Bool, true, false, not, ◌&&◌, Option, none, some, List, [], ◌∷◌, ◌++◌, length, map,
  if◌then◌else◌, list_eq, nat_eq, ◌==◌,
}
use licitaciones_mcp.Base.Dict.{Dict, lookup, insert}
use licitaciones_mcp.Base.Result.{Result, ok, raised}
use licitaciones_mcp.Base.Text.{Text, codes}
use licitaciones_mcp.Core.Models.{
  Tender, TenderFilters, TenderSearchResult, DailyJob, JobRunStatus, started, source_eq, or_empty,
}
use licitaciones_mcp.Core.Scoring.{given}
use licitaciones_mcp.Storage.Upsert.{TenderRecord}
use licitaciones_mcp.Jobs.Ingest.{World, Effect, JobRun, JobResult, SourceFetchResult, handle}

pub record JobExecutionResult : Type 0 where
  pub run : JobRun
  pub result_count : ℕ

-- The row of a tender, by source and external id.
row_of : Tender → Dict Text TenderRecord → Option TenderRecord
row_of t [] = none
row_of t ((_, row) ∷ rows) =
    let rest = row_of t rows in
    if row.tender.source == t.source && row.tender.external_id == t.external_id
    then some row
    else rest

kept_result : TenderSearchResult → Option TenderRecord → List JobResult
kept_result r none = []
kept_result r (some row) = record { tender_id = row.id; score = r.score; reasons = r.reasons } ∷ []

rows_of_results : Dict Text TenderRecord → List TenderSearchResult → List JobResult
unfolding row_of kept_result
rows_of_results rows [] = []
rows_of_results rows (r ∷ rs) = kept_result r (row_of r.tender rows) ++ rows_of_results rows rs

abbrev pub started_job_run : Text → ℕ → JobRun
started_job_run job_id now = record {
  job_id = job_id;
  status = started;
  started_at = now;
  finished_at = none;
  result_count = 0;
  error = none;
}

abbrev pub finished_job_run : JobRun → ℕ → List TenderSearchResult → Option Text → JobRun
finished_job_run run now results error = record run {
  status = if given error then JobRunStatus.failed else JobRunStatus.succeeded;
  finished_at = some now;
  result_count = length results;
  error = error;
}

touch_job : Text → ℕ → Dict Text (Option ℕ) → Dict Text (Option ℕ)
touch_job job_id now jobs = elim (lookup job_id jobs) [
  | none ↦ jobs
  | some _ ↦ insert job_id (some now) jobs
]

-- What runs a job needs of the rest of the program.
pub record Services : Type 0 where
  pub new_id : ℕ → Text
  pub clock : ℕ → ℕ
  -- `ingest_for_filters`
  pub ingest : TenderFilters → World → Effect (List SourceFetchResult)
  -- `search_tenders`, which only reads
  pub search : TenderFilters → World → Result Text (List TenderSearchResult)

module _ (S : Services) where
  unfoldable pub start_job_run : Text → World → World
  start_job_run job_id w = record w {
    ticks = suc w.ticks;
    job_runs = insert (S.new_id w.ticks) (started_job_run job_id (S.clock w.ticks)) w.job_runs;
  }

  -- `run` is the run as `start_job_run` has returned it.
  unfoldable pub finish_job_run :
      Text → JobRun → List TenderSearchResult → Option Text → World → Effect JobRun
  unfolding rows_of_results touch_job
  finish_job_run run_id run results error w =
      let now = S.clock w.ticks in
      let finished = finished_job_run run now results error in
      elim (lookup run_id w.job_runs) [
        | none ↦ (record w { ticks = suc w.ticks }, raised (codes "Job run not found: " ++ run_id))
        | some kept ↦ (
          record w {
            ticks = suc w.ticks;
            job_runs = insert run_id (finished_job_run kept now results error) w.job_runs;
            job_results = insert run_id (rows_of_results w.tenders results) w.job_results;
            last_run_at = touch_job run.job_id now w.last_run_at;
          },
          ok finished,
        )
      ]

  -- `if refresh_sources: await ingest_for_filters(...)`, and the search
  unfoldable pub refreshed_search : Bool → TenderFilters → World → Effect (List TenderSearchResult)
  refreshed_search refresh f w =
      if refresh
      then handle (S.ingest f w) (λ w' _. (w', S.search f w')) (λ w' e. (w', raised e))
      else (w, S.search f w)

  -- The `except` block.
  fail_job : Text → JobRun → Text → World → Effect JobExecutionResult
  unfolding finish_job_run
  fail_job run_id run e w =
      handle (finish_job_run run_id run [] (some e) w)
        (λ w' r. (w', ok (record { run = r; result_count = 0 }))) (λ w' e'. (w', raised e'))

  -- The `try` block after the search.
  finish_search : Text → JobRun → Effect (List TenderSearchResult) → Effect JobExecutionResult
  unfolding fail_job finish_job_run
  finish_search run_id run found =
      handle found
        (λ w results.
          handle (finish_job_run run_id run results none w)
            (λ w' r. (w', ok (record { run = r; result_count = length results })))
            (λ w' e. fail_job run_id run e w'))
        (λ w e. fail_job run_id run e w)

  unfoldable pub run_job : DailyJob → Bool → World → Effect JobExecutionResult
  unfolding finish_search fail_job start_job_run refreshed_search
  run_job job refresh w =
      if not (given job.id)
      then (w, raised (codes "Daily job must be persisted before it can run"))
      else finish_search (S.new_id w.ticks) (started_job_run (or_empty job.id) (S.clock w.ticks))
          (refreshed_search refresh job.filters (start_job_run (or_empty job.id) w))
