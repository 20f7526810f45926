-- ===== src/Jobs/Runner/Status.antt =====
-- How a job's run ends.
use licitaciones_mcp.Base.{
  ℕ, suc, ◌≡◌, refl, ◌∙◌, Bool, true, false, Option, none, some, List, [], length, non_empty,
  if◌then◌else◌, list_eq, nat_eq, eq_self,
}
use licitaciones_mcp.Base.Dict.{lookup, insert, lookup-insert}
use licitaciones_mcp.Base.Result.{Result, ok, raised}
use licitaciones_mcp.Base.Text.{Text}
use licitaciones_mcp.Core.Models.{
  TenderFilters, TenderSearchResult, DailyJob, JobRunStatus, or_empty,
}
use licitaciones_mcp.Core.Scoring.{given}
use licitaciones_mcp.Jobs.Ingest.{World, Effect, JobRun, handle}
use licitaciones_mcp.Jobs.Ingest.Runs.{handle_world}
use licitaciones_mcp.Jobs.Runner.{
  JobExecutionResult, Services, started_job_run, finished_job_run, start_job_run, finish_job_run,
  refreshed_search, fail_job, finish_search, run_job, rows_of_results, touch_job,
}

-- The status that the refresh and the search lead to.
abbrev pub status_after : Result Text (List TenderSearchResult) → JobRunStatus
status_after (ok _) = JobRunStatus.succeeded
status_after (raised e) = if non_empty e then JobRunStatus.failed else JobRunStatus.succeeded

abbrev pub count_after : Result Text (List TenderSearchResult) → ℕ
count_after (ok results) = length results
count_after (raised e) = 0

-- The job has returned a finished run of this status and count, and the database holds the same.
abbrev pub IsFinished :
    Text → Result Text (List TenderSearchResult) → Effect JobExecutionResult → Type 0
IsFinished run_id found e =
    (run : JobRun) × (e.1 ≡ ok (record { run = run; result_count = count_after found }))
    × (lookup run_id e.0.job_runs ≡ some run)
    × (run.status ≡ status_after found)
    × (run.result_count ≡ count_after found)

module _ (S : Services) where
  abbrev pub after_finish : Text → JobRun → List TenderSearchResult → Option Text → World → World
  unfolding rows_of_results touch_job
  after_finish run_id run results error w = record w {
    ticks = suc w.ticks;
    job_runs = insert run_id (finished_job_run run (S.clock w.ticks) results error) w.job_runs;
    job_results = insert run_id (rows_of_results w.tenders results) w.job_results;
    last_run_at = touch_job run.job_id (S.clock w.ticks) w.last_run_at;
  }

  pub finish_found :
      (run_id : Text) (run : JobRun) (results : List TenderSearchResult) (error : Option Text)
      (w : World)
      → lookup run_id w.job_runs ≡ some run
      → finish_job_run S run_id run results error w ≡ (
        after_finish run_id run results error w,
        ok (finished_job_run run (S.clock w.ticks) results error),
      )
  unfolding finish_job_run after_finish
  finish_found run_id run results error w h = rw (finish_job_run, h) refl

  found-finish :
      (run_id : Text) (run : JobRun) (w : World)
      → lookup run_id (insert run_id run w.job_runs) ≡ some run
  found-finish run_id run w = lookup-insert run_id run_id run w.job_runs ∙ rw (eq_self run_id) refl

  fail_job-IsFinished :
      (run_id e : Text) (run : JobRun) (w : World)
      → lookup run_id w.job_runs ≡ some run
      → IsFinished run_id (raised e) (fail_job S run_id run e w)
  unfolding fail_job handle
  fail_job-IsFinished run_id e run w h =
      let ended = finished_job_run run (S.clock w.ticks) [] (some e) in
      rw (finish_found run_id run [] (some e) w h)
        (ended, refl, found-finish run_id ended w, refl, refl)

  finish_search-IsFinished :
      (run_id : Text) (run : JobRun) (found : Effect (List TenderSearchResult))
      → lookup run_id found.0.job_runs ≡ some run
      → IsFinished run_id found.1 (finish_search S run_id run found)
  unfolding finish_search handle
  finish_search-IsFinished run_id run (w, raised e) h = fail_job-IsFinished run_id e run w h
  finish_search-IsFinished run_id run (w, ok results) h =
      let ended = finished_job_run run (S.clock w.ticks) results none in
      rw (finish_found run_id run results none w h)
        (ended, refl, found-finish run_id ended w, refl, refl)

  module _ (keeps : (f : TenderFilters) (w : World) → (S.ingest f w).0.job_runs ≡ w.job_runs) where
    pub search_world :
        (refresh : Bool) (f : TenderFilters) (w : World)
        → (refreshed_search S refresh f w).0.job_runs ≡ w.job_runs
    unfolding refreshed_search
    search_world false f w = refl
    search_world true f w =
        handle_world (λ v. v.job_runs ≡ w.job_runs) (S.ingest f w) (λ w' _. (w', S.search f w'))
          (λ w' e. (w', raised e)) (keeps f w) (λ v a k. k) (λ v t k. k)

    -- A job that has an id returns a finished run, and the database holds it: succeeded with the
    -- number of the results if the refresh and the search return; if they raise, failed where the
    -- error's text is not empty, and else succeeded.
    pub run_job-IsFinished :
        (job : DailyJob) (refresh : Bool) (w : World)
        → given job.id ≡ true
        → IsFinished
            (S.new_id w.ticks)
            (refreshed_search S refresh job.filters (start_job_run S (or_empty job.id) w)).1
            (run_job S job refresh w)
    unfolding run_job start_job_run
    run_job-IsFinished job refresh w h =
        let id = S.new_id w.ticks in
        let run = started_job_run (or_empty job.id) (S.clock w.ticks) in
        rw h (
          finish_search-IsFinished id run
            (refreshed_search S refresh job.filters (start_job_run S (or_empty job.id) w))
            (rw (search_world refresh job.filters (start_job_run S (or_empty job.id) w))
              (lookup-insert id id run w.job_runs ∙ rw (eq_self id) refl)))
