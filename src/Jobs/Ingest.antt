-- ===== src/Jobs/Ingest.antt =====
-- jobs/runner.py: the fetch of the sources under a run that the database keeps, and the daily jobs.
-- A source and the ranking of a search are parameters; so are the clock and the new ids, by the
-- number of the ticks so far. An error is the text that `str` gives of it.
pub mod Recorded
pub mod Runs
use licitaciones_mcp.Base.{
  ℕ, suc, ◌≡◌, Bool, true, false, not, ◌&&◌, ◌||◌, Option, none, some, List, [], ◌∷◌, ◌++◌, length,
  take, keep, map, eqb, non_empty, if◌then◌else◌, list_eq, nat_eq, ◌==◌,
}
use mathlib.Core.List.{reverse}
use licitaciones_mcp.Base.Dict.{Dict, lookup, insert}
use licitaciones_mcp.Base.Result.{Result, ok, raised}
use licitaciones_mcp.Base.Text.{Text, codes, join, blank, strip}
use licitaciones_mcp.Core.Models.{
  Tender, TenderFilters, TenderSearchResult, SourceFetchRunStatus, DailyJob, JobRunStatus,
  source_eq, or_empty,
}
use licitaciones_mcp.Core.Scoring.{given}
use licitaciones_mcp.Storage.FetchRuns.{
  Attempt, Outcome, FetchRuns, start_source_fetch_run, finish_source_fetch_run,
}
use licitaciones_mcp.Storage.Upsert.{TenderRecord}

-- `_embedding_input`
unfoldable pub embedding_input : Tender → Text
embedding_input t = take 4000 (
    strip (
      join blank (
        keep non_empty
          (t.title ∷ or_empty t.summary ∷ join blank t.cpv_codes ∷ or_empty t.buyer_name ∷ []))))

-- `SourceFetchResult`
pub record SourceFetchResult : Type 0 where
  pub tenders : List Tender
  pub source_cursor : Option Text

pub record JobRun : Type 0 where
  pub job_id : Text
  pub status : JobRunStatus
  pub started_at : ℕ
  pub finished_at : Option ℕ
  pub result_count : ℕ
  pub error : Option Text

-- A row of `job_results`.
pub record JobResult : Type 0 where
  pub tender_id : Text
  pub score : ℕ
  pub reasons : List Text

pub record World : Type 0 where
  pub ticks : ℕ
  pub fetch_runs : FetchRuns
  pub tenders : Dict Text TenderRecord
  pub job_runs : Dict Text JobRun
  pub job_results : Dict Text (List JobResult)
  -- `last_run_at` of the daily jobs that the table holds
  pub last_run_at : Dict Text (Option ℕ)

pub record Settings : Type 0 where
  pub placsp_feed_url : Option Text
  pub ted_api_base_url : Text

-- `rstrip("/")`
drop_slashes : Text → Text
drop_slashes [] = []
drop_slashes (c ∷ s) = if eqb c b'/' then drop_slashes s else c ∷ s

unfoldable pub rstrip_slash : Text → Text
unfolding drop_slashes
rstrip_slash s = reverse (drop_slashes (reverse s))

ted_attempt : Settings → Attempt
unfolding rstrip_slash
ted_attempt settings = record {
  source = codes "ted";
  operation = codes "search";
  dataset_kind = none;
  year = none;
  month = none;
  source_url = some (rstrip_slash settings.ted_api_base_url ++ codes "/notices/search");
}

pub placsp_attempt : Settings → Attempt
placsp_attempt settings = record {
  source = codes "placsp";
  operation = codes "feed";
  dataset_kind = some (codes "licitaciones");
  year = none;
  month = none;
  source_url = settings.placsp_feed_url;
}

abbrev failed_outcome : Text → Outcome
failed_outcome error = record {
  status = SourceFetchRunStatus.failed;
  tenders_fetched = 0;
  tenders_upserted = 0;
  error = some error;
  source_cursor = none;
}

abbrev succeeded_outcome : SourceFetchResult → List Text → Outcome
succeeded_outcome r ids = record {
  status = SourceFetchRunStatus.succeeded;
  tenders_fetched = length r.tenders;
  tenders_upserted = length ids;
  error = none;
  source_cursor = r.source_cursor;
}

-- What a call leaves: the world, and what it returns or raises.
abbrev pub Effect : Type 0 → Type 0
Effect A = World × Result Text A

-- `try` and `except`
unfoldable pub handle :
    {A B : Type 0} → Effect A → (World → A → Effect B) → (World → Text → Effect B) → Effect B
handle (w, ok a) f g = f w a
handle (w, raised e) f g = g w e

-- `_persist_and_embed`, as it is called here: it may raise.
abbrev pub Persist : Type 0
Persist = List Tender → World → Effect (List Text)

-- `fetch` of a client.
abbrev pub Fetch : Type 0
Fetch = TenderFilters → Result Text SourceFetchResult

module _ (new_id : ℕ → Text) (clock : ℕ → ℕ) (persist : Persist) where
  -- A call of `finish_source_fetch_run` at the next tick.
  finish : Text → Outcome → World → Effect Unit
  finish run_id o w = elim (finish_source_fetch_run run_id (clock w.ticks) o w.fetch_runs) [
    | ok runs ↦ (record w { ticks = suc w.ticks; fetch_runs = runs }, ok tt)
    | raised e ↦ (record w { ticks = suc w.ticks }, raised e)
  ]

  -- The `except` block, which raises the error again, or that of the finish.
  fail_run : Text → Text → World → Effect SourceFetchResult
  unfolding finish
  fail_run run_id e w =
      handle (finish run_id (failed_outcome e) w) (λ w' _. (w', raised e))
        (λ w' e'. (w', raised e'))

  -- The `try` block, once the source has answered.
  tried : Text → Result Text SourceFetchResult → World → Effect SourceFetchResult
  unfolding fail_run finish
  tried run_id (raised e) w = fail_run run_id e w
  tried run_id (ok r) w =
      handle (persist r.tenders w)
        (λ w' ids.
          handle (finish run_id (succeeded_outcome r ids) w') (λ w'' _. (w'', ok r))
            (λ w'' e. fail_run run_id e w''))
        (λ w' e. fail_run run_id e w')

  -- One source: the run is started, the source is fetched and the run is finished.
  unfoldable pub run_source :
      Attempt → Result Text SourceFetchResult → World → Effect SourceFetchResult
  unfolding tried fail_run finish
  run_source a fetched w =
      let run_id = new_id w.ticks in
      tried run_id fetched (record w {
        ticks = suc w.ticks;
        fetch_runs = start_source_fetch_run run_id (clock w.ticks) a w.fetch_runs;
      })

  module _ (settings : Settings) (fetch_placsp fetch_ted : Fetch) where
    -- The second `if`, with the results so far.
    then_ted :
        TenderFilters
        → List SourceFetchResult
        → World
        → World × Result Text (List SourceFetchResult)
    unfolding ted_attempt run_source
    then_ted f results w =
        if given f.text || non_empty f.cpv_codes
        then handle (run_source (ted_attempt settings) (fetch_ted f) w)
            (λ w' r. (w', ok (results ++ r ∷ []))) (λ w' e. (w', raised e))
        else (w, ok results)

    unfoldable pub ingest_for_filters : TenderFilters → World → Effect (List SourceFetchResult)
    unfolding then_ted placsp_attempt run_source
    ingest_for_filters f w =
        if given settings.placsp_feed_url
        then handle (run_source (placsp_attempt settings) (fetch_placsp f) w)
            (λ w' r. then_ted f (r ∷ []) w') (λ w' e. (w', raised e))
        else then_ted f [] w
