-- ===== src/Jobs/PeriodIngest.antt =====
-- `ingest_placsp_period` of jobs/runner.py. The fetch of the period is a parameter.
use licitaciones_mcp.Base.{ℕ, Option, some, list_eq, nat_eq}
use licitaciones_mcp.Base.Result.{Result, ok, raised}
use licitaciones_mcp.Base.Text.{Text, codes}
use licitaciones_mcp.Storage.FetchRuns.{Attempt}
use licitaciones_mcp.Sources.Period.{
  PlacspDatasetKind, kind_value, error_text, build_placsp_period_url,
}
use licitaciones_mcp.Jobs.Ingest.{World, SourceFetchResult, Effect, Persist, run_source}

abbrev pub period_attempt : PlacspDatasetKind → ℕ → Option ℕ → Text → Attempt
period_attempt kind year month url = record {
  source = codes "placsp";
  operation = codes "period";
  dataset_kind = some (kind_value kind);
  year = some year;
  month = month;
  source_url = some url;
}

module _ (new_id : ℕ → Text) (clock : ℕ → ℕ) (persist : Persist) where
  unfoldable pub ingest_placsp_period :
      (PlacspDatasetKind → ℕ → Option ℕ → Result Text SourceFetchResult)
      → PlacspDatasetKind
      → ℕ
      → Option ℕ
      → World
      → Effect SourceFetchResult
  ingest_placsp_period fetch_period kind year month w =
      elim (build_placsp_period_url kind year month) [
        | raised e ↦ (w, raised (error_text e))
        | ok url ↦
            run_source new_id clock persist (period_attempt kind year month url)
              (fetch_period kind year month) w
      ]
