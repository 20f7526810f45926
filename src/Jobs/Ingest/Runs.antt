-- ===== src/Jobs/Ingest/Runs.antt =====
-- A whole ingest leaves no fetch run in the state `running`.
use licitaciones_mcp.Base.{
  ℕ, ◌≡◌, refl, sym, ◌∙◌, Bool, true, false, ◌||◌, some, List, [], ◌∷◌, ◌++◌, non_empty, list_eq,
  nat_eq, ◌==◌, Bool-cases, inl, inr,
}
use licitaciones_mcp.Base.Dict.{lookup}
use licitaciones_mcp.Base.Result.{Result, ok, raised}
use licitaciones_mcp.Base.Text.{Text, text_iff}
use licitaciones_mcp.Core.Models.{TenderFilters, SourceFetchRunStatus, running}
use licitaciones_mcp.Core.Scoring.{given}
use licitaciones_mcp.Storage.FetchRuns.{Attempt, FetchRuns, SourceFetchRun}
use licitaciones_mcp.Jobs.Ingest.{
  World, Settings, SourceFetchResult, Effect, Persist, Fetch, handle, run_source, then_ted,
  ingest_for_filters, ted_attempt, placsp_attempt,
}
use licitaciones_mcp.Jobs.Ingest.Recorded.{IsRecorded, ended_as, run_source-IsRecorded}

pub is_running : SourceFetchRunStatus → Bool
is_running running = true
is_running _ = false

abbrev pub NoneRunning : FetchRuns → Type 0
NoneRunning runs =
    (id : Text) (run : SourceFetchRun) → lookup id runs ≡ some run → is_running run.status ≡ false

ended_not_running : (r : Result Text SourceFetchResult) → is_running (ended_as r) ≡ false
unfolding is_running
ended_not_running (ok _) = refl
ended_not_running (raised _) = refl

recorded_not_running :
    (id : Text) (before : FetchRuns) (e : Effect SourceFetchResult)
    → NoneRunning before
    → IsRecorded id before e
    → NoneRunning e.0.fetch_runs
recorded_not_running id before e none_before ((run, found, status), others) j other found_j =
    elim (Bool-cases (id == j)) [
      | inl same ↦
          let this : lookup j e.0.fetch_runs ≡ some run = rw (sym ((text_iff id j).0 same)) found in
          let equal : run ≡ other = cc in rw (sym equal, status) (ended_not_running e.1)
      | inr different ↦ none_before j other (sym (others j different) ∙ found_j)
    ]

-- What holds of the world of a handled effect.
pub handle_world :
    {A B : Type 0} (P : World → Type 0) (e : Effect A) (f : World → A → Effect B)
    (g : World → Text → Effect B)
    → P e.0
    → ((w : World) (a : A) → P w → P (f w a).0)
    → ((w : World) (t : Text) → P w → P (g w t).0)
    → P (handle e f g).0
unfolding handle
handle_world P (w, ok a) f g p hf hg = hf w a p
handle_world P (w, raised t) f g p hf hg = hg w t p

module _ (new_id : ℕ → Text) (clock : ℕ → ℕ) (persist : Persist) where
  module _ (keeps : (ts : _) (w : World) → (persist ts w).0.fetch_runs ≡ w.fetch_runs) where
    run_source_ends :
        (a : Attempt) (fetched : Result Text SourceFetchResult) (w : World)
        → NoneRunning w.fetch_runs
        → NoneRunning (run_source new_id clock persist a fetched w).0.fetch_runs
    run_source_ends a fetched w h =
        recorded_not_running (new_id w.ticks) w.fetch_runs
          (run_source new_id clock persist a fetched w) h
          (run_source-IsRecorded new_id clock persist keeps a fetched w)

    module _ (settings : Settings) (fetch_placsp fetch_ted : Fetch) where
      then_ted_ends :
          (f : TenderFilters) (results : List SourceFetchResult) (w : World)
          → NoneRunning w.fetch_runs
          → NoneRunning
              (then_ted new_id clock persist settings fetch_placsp fetch_ted f results
                w).0.fetch_runs
      unfolding then_ted
      then_ted_ends f results w h = elim (Bool-cases (given f.text || non_empty f.cpv_codes)) [
        | inl e ↦ rw e (
            handle_world (λ v. NoneRunning v.fetch_runs)
              (run_source new_id clock persist (ted_attempt settings) (fetch_ted f) w)
              (λ w' r. (w', ok (results ++ r ∷ []))) (λ w' e'. (w', raised e'))
              (run_source_ends (ted_attempt settings) (fetch_ted f) w h) (λ v a k. k) (λ v t k. k))
        | inr e ↦ rw e h
      ]

      -- If no fetch run is running before an ingest, none is after it, whatever the sources and
      -- the storage of the tenders answer.
      pub ingest_for_filters-NoneRunning :
          (f : TenderFilters) (w : World)
          → NoneRunning w.fetch_runs
          → NoneRunning
              (ingest_for_filters new_id clock persist settings fetch_placsp fetch_ted f
                w).0.fetch_runs
      unfolding ingest_for_filters
      ingest_for_filters-NoneRunning f w h = elim (Bool-cases (given settings.placsp_feed_url)) [
        | inl e ↦ rw e (
            handle_world (λ v. NoneRunning v.fetch_runs)
              (run_source new_id clock persist (placsp_attempt settings) (fetch_placsp f) w)
              (λ w' r. then_ted new_id clock persist settings fetch_placsp fetch_ted f (r ∷ []) w')
              (λ w' e'. (w', raised e'))
              (run_source_ends (placsp_attempt settings) (fetch_placsp f) w h)
              (λ v a k. then_ted_ends f (a ∷ []) v k) (λ v t k. k))
        | inr e ↦ rw e (then_ted_ends f [] w h)
      ]
