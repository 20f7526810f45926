-- ===== src/Tests/JobsTests.antt =====
-- jobs/ at concrete inputs: one source answers, the other fails.
use licitaciones_mcp.Base.{
  contains, any, false, ℕ, ◌≡◌, refl, true, some, none, List, [], ◌∷◌, map, list_eq, nat_eq,
}
use licitaciones_mcp.Base.Dict.{lookup}
use licitaciones_mcp.Base.Result.{Result, ok, raised}
use licitaciones_mcp.Base.Text.{Text, codes}
use licitaciones_mcp.Core.Models.{DailyJob}
use licitaciones_mcp.Jobs.Ingest.{
  Settings, SourceFetchResult, Persist, placsp_attempt, run_source, ingest_for_filters,
}
use licitaciones_mcp.Jobs.Ingest.Recorded.{IsRecorded, run_source-IsRecorded}
use licitaciones_mcp.Jobs.Ingest.Runs.{NoneRunning, ingest_for_filters-NoneRunning}
use licitaciones_mcp.Jobs.Runner.Due.{due_jobs, run_due_jobs}
use licitaciones_mcp.Jobs.Runner.Due.Results.{IsRunOf, run_due_jobs-IsRunOf}
use licitaciones_mcp.Jobs.Runner.{
  JobExecutionResult, Services, start_job_run, refreshed_search, run_job,
}
use licitaciones_mcp.Jobs.Runner.Status.{IsFinished, run_job-IsFinished}
use licitaciones_mcp.Jobs.Scheduler.{DailyJobRecord, Scheduler, at_hour, load_jobs}
use licitaciones_mcp.Jobs.Scheduler.Reload.{load_jobs-disabled}
use licitaciones_mcp.Tests.{software, software_filters, found_software, empty_world}

abbrev numbered : ℕ → Text
numbered n = n ∷ []

-- A storage that gives back the external ids.
abbrev stored_ids : Persist
stored_ids ts w = (w, ok (map (λ t. t.external_id) ts))

abbrev both_sources : Settings
both_sources = record {
  placsp_feed_url = some (codes "https://feed");
  ted_api_base_url = codes "https://ted/";
}

abbrev fetched : Result Text SourceFetchResult
fetched = ok (record { tenders = software ∷ []; source_cursor = none })

abbrev timed_out : Result Text SourceFetchResult
timed_out = raised (codes "timeout")

run_source-IsRecorded_example :
    IsRecorded
      (numbered 0)
      []
      (run_source numbered (λ n. n) stored_ids (placsp_attempt both_sources) fetched empty_world)
run_source-IsRecorded_example =
    run_source-IsRecorded numbered (λ n. n) stored_ids (λ ts w. refl) (placsp_attempt both_sources)
      fetched empty_world

no_runs : NoneRunning []
unfolding lookup
no_runs id run h = absurd (cc)

ingest_for_filters-NoneRunning_example :
    NoneRunning
      (ingest_for_filters numbered
        (λ n. n)
        stored_ids
        both_sources
        (λ f. fetched)
        (λ f. timed_out)
        software_filters
        empty_world).0.fetch_runs
ingest_for_filters-NoneRunning_example =
    ingest_for_filters-NoneRunning numbered (λ n. n) stored_ids (λ ts w. refl) both_sources
      (λ f. fetched) (λ f. timed_out) software_filters empty_world no_runs

abbrev failing : Services
failing = record {
  new_id = numbered;
  clock = λ n. n;
  ingest = λ f w. (w, raised (codes "timeout"));
  search = λ f w. ok (found_software ∷ []);
}

abbrev daily : DailyJob
daily = record {
  id = some (codes "job");
  name = codes "software";
  filters = software_filters;
  hour_utc = 6;
  cron = none;
  enabled = true;
}

run_job-IsFinished_example :
    IsFinished
      (numbered 0)
      (refreshed_search failing true software_filters
        (start_job_run failing (codes "job") empty_world)).1
      (run_job failing daily true empty_world)
run_job-IsFinished_example = run_job-IsFinished failing (λ f w. refl) daily true empty_world refl

run_due_jobs-IsRunOf_example :
    (results : List JobExecutionResult) × ((run_due_jobs failing 6 (daily ∷ []) empty_world).1
      ≡ ok results)
    × IsRunOf failing (λ f w. refl) (due_jobs 6 (daily ∷ [])) results
run_due_jobs-IsRunOf_example =
    run_due_jobs-IsRunOf failing (λ f w. refl) 6 (daily ∷ []) empty_world (refl, tt)

abbrev nightly : Scheduler Text
nightly = record {
  known_signatures = (codes "a", record { cron = none; hour_utc = 6 }) ∷ [];
  jobs = (codes "a", at_hour 6) ∷ [];
}

abbrev disabled : DailyJobRecord
disabled = record { id = codes "a"; enabled = false; cron = none; hour_utc = 6 }

load_jobs-disabled_example :
    (lookup (codes "a") (load_jobs some (disabled ∷ []) nightly).0.jobs ≡ none)
    × (lookup (codes "a") (load_jobs some (disabled ∷ []) nightly).0.known_signatures ≡ none)
unfolding contains any list_eq
load_jobs-disabled_example = load_jobs-disabled some (disabled ∷ []) nightly (codes "a") refl refl
