-- ===== src/Jobs/Runner/Due/Results.antt =====
-- Each job that is due is run.
use licitaciones_mcp.Base.{
  ℕ, ◌≡◌, refl, ap, ap₂, ◌∙◌, Bool, true, false, none, some, List, [], ◌∷◌, map, All, All-kept,
  if◌then◌else◌, list_eq, nat_eq, eq_self, eqb,
}
use licitaciones_mcp.Base.Dict.{lookup, lookup-insert}
use licitaciones_mcp.Base.Result.{ok, raised, ok-injective}
use licitaciones_mcp.Base.Text.{Text}
use licitaciones_mcp.Core.Models.{
  TenderFilters, TenderSearchResult, DailyJob, JobRunStatus, or_empty,
}
use licitaciones_mcp.Core.Scoring.{given}
use licitaciones_mcp.Jobs.Ingest.{World, Effect, JobRun, handle}
use licitaciones_mcp.Jobs.Runner.{
  JobExecutionResult, Services, started_job_run, fail_job, finish_search, refreshed_search,
  start_job_run, run_job,
}
use licitaciones_mcp.Jobs.Runner.Status.{finish_found, search_world}
use licitaciones_mcp.Jobs.Runner.Due.{list_daily_jobs, due_jobs, run_jobs, run_due_jobs}

abbrev pub has_finished : JobRunStatus → Bool
has_finished JobRunStatus.started = false
has_finished JobRunStatus.succeeded = true
has_finished JobRunStatus.failed = true

finished_either :
    (b : Bool) → has_finished (if b then JobRunStatus.failed else JobRunStatus.succeeded) ≡ true
finished_either true = refl
finished_either false = refl

-- The job has returned a run of its own that has finished.
abbrev HasRun : Text → Effect JobExecutionResult → Type 0
HasRun job_id e =
    (r : JobExecutionResult) × (e.1 ≡ ok r)
    × (r.run.job_id ≡ job_id)
    × (has_finished r.run.status ≡ true)

module _ (S : Services) where
  fail_job-HasRun :
      (run_id e : Text) (run : JobRun) (w : World)
      → lookup run_id w.job_runs ≡ some run
      → HasRun run.job_id (fail_job S run_id run e w)
  unfolding fail_job handle
  fail_job-HasRun run_id e run w h =
      rw (finish_found S run_id run [] (some e) w h) (_, refl, refl, finished_either _)

  finish_search-HasRun :
      (run_id : Text) (run : JobRun) (found : Effect (List TenderSearchResult))
      → lookup run_id found.0.job_runs ≡ some run
      → HasRun run.job_id (finish_search S run_id run found)
  unfolding finish_search handle
  finish_search-HasRun run_id run (w, raised e) h = fail_job-HasRun run_id e run w h
  finish_search-HasRun run_id run (w, ok results) h =
      rw (finish_found S run_id run results none w h) (_, refl, refl, refl)

  module _ (keeps : (f : TenderFilters) (w : World) → (S.ingest f w).0.job_runs ≡ w.job_runs) where
    run_job-HasRun :
        (job : DailyJob) (refresh : Bool) (w : World)
        → given job.id ≡ true
        → HasRun (or_empty job.id) (run_job S job refresh w)
    unfolding run_job start_job_run
    run_job-HasRun job refresh w h =
        let id = S.new_id w.ticks in
        let run = started_job_run (or_empty job.id) (S.clock w.ticks) in
        rw h (
          finish_search-HasRun id run
            (refreshed_search S refresh job.filters (start_job_run S (or_empty job.id) w))
            (rw (search_world S keeps refresh job.filters (start_job_run S (or_empty job.id) w))
              (lookup-insert id id run w.job_runs ∙ rw (eq_self id) refl)))

    -- There is a result for each of the jobs, in their order, and its run has finished.
    pub record IsRunOf (jobs : List DailyJob) (results : List JobExecutionResult) : Type 0 where
      pub of_jobs : map (λ r. r.run.job_id) results ≡ map (λ j. or_empty j.id) jobs
      pub finished : All (λ r. has_finished r.run.status ≡ true) results

    abbrev AllRun : List DailyJob → Effect (List JobExecutionResult) → Type 0
    AllRun jobs e = (results : List JobExecutionResult) × (e.1 ≡ ok results) × IsRunOf jobs results

    after_first :
        (j : DailyJob) (js : List DailyJob) (r : JobExecutionResult)
        (rest : Effect (List JobExecutionResult))
        → r.run.job_id ≡ or_empty j.id
        → has_finished r.run.status ≡ true
        → AllRun js rest
        → AllRun (j ∷ js) (handle rest (λ w rs. (w, ok (r ∷ rs))) (λ w e. (w, raised e)))
    unfolding handle
    after_first j js r (w, raised e) own over (rs, ran, all) = absurd (cc)
    after_first j js r (w, ok us) own over (rs, ran, all) = (
      r ∷ us,
      refl,
      record {
        of_jobs =
            ap₂ (λ id ids. id ∷ ids) own
              (ap (map (λ x. x.run.job_id)) (ok-injective ran) ∙ all.of_jobs);
        finished = (over, rw (ok-injective ran) all.finished);
      },
    )

    run_rest :
        (j : DailyJob) (js : List DailyJob) (first : Effect JobExecutionResult)
        → HasRun (or_empty j.id) first
        → ((v : World) → AllRun js (run_jobs S js v))
        → AllRun (j ∷ js) (
            handle first
              (λ w' r.
                handle (run_jobs S js w') (λ w'' rs. (w'', ok (r ∷ rs))) (λ w'' e. (w'', raised e)))
              (λ w' e. (w', raised e)))
    unfolding handle
    run_rest j js (w, raised e) (r, ran, own, over) next = absurd (cc)
    run_rest j js (w, ok x) (r, ran, own, over) next =
        let same : x ≡ r = ok-injective ran in
        after_first j js x (run_jobs S js w) (rw same own) (rw same over) (next w)

    run_jobs-AllRun :
        (jobs : List DailyJob) (w : World)
        → All (λ j. given j.id ≡ true) jobs
        → AllRun jobs (run_jobs S jobs w)
    unfolding run_jobs handle
    run_jobs-AllRun [] w h = ([], refl, record { of_jobs = refl; finished = tt })
    run_jobs-AllRun (j ∷ js) w h =
        run_rest j js (run_job S j true w) (run_job-HasRun j true w h.0)
          (λ v. run_jobs-AllRun js v h.1)

    -- A run for each enabled job that is due at the hour, in the order of the table: the jobs have
    -- ids, as all rows do, and a job that fails keeps none from running; provided that the ingest
    -- leaves the job runs alone.
    pub run_due_jobs-IsRunOf :
        (hour : ℕ) (jobs : List DailyJob) (w : World)
        → All (λ j. given j.id ≡ true) jobs
        → (results : List JobExecutionResult) × ((run_due_jobs S hour jobs w).1 ≡ ok results)
          × IsRunOf (due_jobs hour jobs) results
    unfolding run_due_jobs due_jobs list_daily_jobs
    run_due_jobs-IsRunOf hour jobs w h =
        run_jobs-AllRun (due_jobs hour jobs) w
          (All-kept _ (λ j. eqb j.hour_utc hour) _ (All-kept _ (λ j. j.enabled) jobs h))
