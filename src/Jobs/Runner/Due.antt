-- ===== src/Jobs/Runner/Due.antt =====
-- `DailyJobRunner.run_due_jobs` of jobs/runner.py, with `list_daily_jobs` of storage/database.py: the
-- jobs of the table in the order of their creation.
pub mod Results
use licitaciones_mcp.Base.{ℕ, Bool, true, List, [], ◌∷◌, keep, if◌then◌else◌, eqb}
use licitaciones_mcp.Base.Result.{Result, ok, raised}
use licitaciones_mcp.Core.Models.{DailyJob}
use licitaciones_mcp.Jobs.Ingest.{World, Effect, handle}
use licitaciones_mcp.Jobs.Runner.{JobExecutionResult, Services, run_job}

unfoldable pub list_daily_jobs : Bool → List DailyJob → List DailyJob
list_daily_jobs include_disabled jobs =
    if include_disabled then jobs else keep (λ j. j.enabled) jobs

-- `job.hour_utc == now.hour`
unfoldable pub due_jobs : ℕ → List DailyJob → List DailyJob
unfolding list_daily_jobs
due_jobs hour jobs = keep (λ j. eqb j.hour_utc hour) (list_daily_jobs Bool.false jobs)

module _ (S : Services) where
  -- The loop: an exception of one job would end it.
  run_jobs : List DailyJob → World → Effect (List JobExecutionResult)
  unfolding run_job
  run_jobs [] w = (w, ok [])
  run_jobs (j ∷ js) w =
      handle (run_job S j true w)
        (λ w' r. handle (run_jobs js w') (λ w'' rs. (w'', ok (r ∷ rs))) (λ w'' e. (w'', raised e)))
        (λ w' e. (w', raised e))

  unfoldable pub run_due_jobs : ℕ → List DailyJob → World → Effect (List JobExecutionResult)
  unfolding run_jobs due_jobs
  run_due_jobs hour jobs w = run_jobs (due_jobs hour jobs) w
