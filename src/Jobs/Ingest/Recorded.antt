-- ===== src/Jobs/Ingest/Recorded.antt =====
-- Every fetch that is started is recorded to its end, whether it returns or raises.
use licitaciones_mcp.Base.{
  ℕ, suc, ◌≡◌, refl, ◌∙◌, false, some, List, list_eq, nat_eq, ◌==◌, eq_self,
}
use licitaciones_mcp.Base.Dict.{lookup, insert, lookup-insert}
use licitaciones_mcp.Base.Result.{Result, ok, raised}
use licitaciones_mcp.Base.Text.{Text}
use licitaciones_mcp.Core.Models.{SourceFetchRunStatus}
use licitaciones_mcp.Storage.FetchRuns.{
  Attempt, Outcome, FetchRuns, SourceFetchRun, finished_run, started_run, start_source_fetch_run,
  finish_source_fetch_run,
}
use licitaciones_mcp.Jobs.Ingest.{
  World, SourceFetchResult, Effect, Persist, handle, failed_outcome, succeeded_outcome, finish,
  fail_run, tried, run_source,
}

-- The status that a run ends with.
abbrev pub ended_as : Result Text SourceFetchResult → SourceFetchRunStatus
ended_as (ok _) = SourceFetchRunStatus.succeeded
ended_as (raised _) = SourceFetchRunStatus.failed

-- The run `id` has ended as the result says, and the other runs are those of `before`.
abbrev pub IsRecorded : Text → FetchRuns → Effect SourceFetchResult → Type 0
IsRecorded id before e =
    ((run : SourceFetchRun) × (lookup id e.0.fetch_runs ≡ some run) × (run.status ≡ ended_as e.1))
    × ((j : Text) → (id == j) ≡ false → lookup j e.0.fetch_runs ≡ lookup j before)

abbrev Others : Text → FetchRuns → World → Type 0
Others id before w = (j : Text) → (id == j) ≡ false → lookup j w.fetch_runs ≡ lookup j before

-- The run is there, and the other runs are those of `before`.
abbrev IsThere : Text → FetchRuns → World → Type 0
IsThere id before w =
    ((run : SourceFetchRun) × (lookup id w.fetch_runs ≡ some run)) × Others id before w

module _ (new_id : ℕ → Text) (clock : ℕ → ℕ) (persist : Persist) where
  abbrev after_finish : Text → Outcome → SourceFetchRun → World → World
  after_finish id o r w = record w {
    ticks = suc w.ticks;
    fetch_runs = insert id (finished_run o (clock w.ticks) r) w.fetch_runs;
  }

  finish_found :
      (id : Text) (o : Outcome) (r : SourceFetchRun) (w : World)
      → lookup id w.fetch_runs ≡ some r
      → finish new_id clock persist id o w ≡ (after_finish id o r w, ok tt)
  unfolding finish finish_source_fetch_run
  finish_found id o r w e = rw (finish, e) refl

  Others-finish :
      (id : Text) (before : FetchRuns) (o : Outcome) (r : SourceFetchRun) (w : World)
      → Others id before w
      → Others id before (after_finish id o r w)
  Others-finish id before o r w h j e = lookup-insert id j _ w.fetch_runs ∙ rw e (h j e)

  found-finish :
      (id : Text) (o : Outcome) (r : SourceFetchRun) (w : World)
      → lookup id (after_finish id o r w).fetch_runs ≡ some (finished_run o (clock w.ticks) r)
  found-finish id o r w = lookup-insert id id _ w.fetch_runs ∙ rw (eq_self id) refl

  fail_run-IsRecorded :
      (id e : Text) (before : FetchRuns) (w : World)
      → IsThere id before w
      → IsRecorded id before (fail_run new_id clock persist id e w)
  unfolding fail_run handle
  fail_run-IsRecorded id e before w ((r, found), others) =
      rw (finish_found id (failed_outcome e) r w found) (
        (_, found-finish id (failed_outcome e) r w, refl),
        Others-finish id before (failed_outcome e) r w others,
      )

  stored-IsRecorded :
      (id : Text) (before : FetchRuns) (r : SourceFetchResult) (p : Effect (List Text))
      → IsThere id before p.0
      → IsRecorded id before (
          handle p
            (λ w' ids.
              handle
                (finish new_id clock persist id (succeeded_outcome r ids) w')
                (λ w'' _. (w'', ok r))
                (λ w'' e. fail_run new_id clock persist id e w''))
            (λ w' e. fail_run new_id clock persist id e w'))
  unfolding handle
  stored-IsRecorded id before r (w, raised e) h = fail_run-IsRecorded id e before w h
  stored-IsRecorded id before r (w, ok ids) ((run, found), others) =
      rw (finish_found id (succeeded_outcome r ids) run w found) (
        (_, found-finish id (succeeded_outcome r ids) run w, refl),
        Others-finish id before (succeeded_outcome r ids) run w others,
      )

  abbrev after_start : Attempt → World → World
  unfolding start_source_fetch_run
  after_start a w = record w {
    ticks = suc w.ticks;
    fetch_runs = start_source_fetch_run (new_id w.ticks) (clock w.ticks) a w.fetch_runs;
  }

  start-IsThere :
      (a : Attempt) (w : World) → IsThere (new_id w.ticks) w.fetch_runs (after_start a w)
  unfolding start_source_fetch_run
  start-IsThere a w =
      let id = new_id w.ticks in
      let r = started_run a (clock w.ticks) in
      (
        (r, lookup-insert id id r w.fetch_runs ∙ rw (eq_self id) refl),
        λ j e. lookup-insert id j r w.fetch_runs ∙ rw e refl,
      )

  module _ (keeps : (ts : _) (w : World) → (persist ts w).0.fetch_runs ≡ w.fetch_runs) where
    tried-IsRecorded :
        (id : Text) (before : FetchRuns) (fetched : Result Text SourceFetchResult) (w : World)
        → IsThere id before w
        → IsRecorded id before (tried new_id clock persist id fetched w)
    unfolding tried
    tried-IsRecorded id before (raised e) w h = fail_run-IsRecorded id e before w h
    tried-IsRecorded id before (ok r) w h =
        stored-IsRecorded id before r (persist r.tenders w) (rw (keeps r.tenders w) h)

    -- The run that `run_source` starts has ended when it returns or raises: as succeeded if it
    -- returns, as failed if it raises. The other runs are as they were.
    pub run_source-IsRecorded :
        (a : Attempt) (fetched : Result Text SourceFetchResult) (w : World)
        → IsRecorded (new_id w.ticks) w.fetch_runs (run_source new_id clock persist a fetched w)
    unfolding run_source start_source_fetch_run
    run_source-IsRecorded a fetched w =
        tried-IsRecorded (new_id w.ticks) w.fetch_runs fetched (after_start a w) (start-IsThere a w)
