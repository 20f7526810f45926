-- ===== src/Cli/Backfill.antt =====
-- `ingest_backfill` of cli.py: the periods of a range of years, one after the other, with a cursor
-- for each. The ingest of one period is a parameter of the loop; `ingest_backfill` runs it with the
-- ingest of jobs/runner.py.
pub mod Resume
use licitaciones_mcp.Base.{
  ℕ, zero, suc, ◌+◌, ◌-◌, Bool, true, false, not, Option, none, some, List, [], ◌∷◌, ◌++◌, map,
  length, eqb, if◌then◌else◌, ◌==◌, list_eq, nat_eq, contains,
}
use licitaciones_mcp.Base.Result.{Result, ok, raised}
use licitaciones_mcp.Base.Text.{Text, codes}
use licitaciones_mcp.Jobs.Ingest.{World, SourceFetchResult, Effect, Persist}
use licitaciones_mcp.Jobs.PeriodIngest.{ingest_placsp_period}
use licitaciones_mcp.Sources.Period.{
  PlacspDatasetKind, licitaciones, agregacion, menores, encargos, consultas, kind_value, str,
  two_digits,
}
use licitaciones_mcp.Storage.Cursors.{
  IngestCursor, Cursors, get_ingest_cursor, record_ingest_cursor,
}

pub record Backfill : Type 0 where
  pub world : World
  pub cursors : Cursors

abbrev pub Period : Type 0
Period = ℕ × Option ℕ

-- `_PLACSP_KINDS`
unfoldable pub placsp_kinds : List PlacspDatasetKind
placsp_kinds = licitaciones ∷ agregacion ∷ menores ∷ encargos ∷ consultas ∷ []

-- `f"{year}-{month:02d}" if month else str(year)`
unfoldable pub cursor_of : Period → Text
unfolding str two_digits
cursor_of (year, none) = str year
cursor_of (year, some month) =
    if eqb month 0 then str year else str year ++ codes "-" ++ two_digits month

-- `range(start, start + n)`
years_from : ℕ → ℕ → List ℕ
years_from start zero = []
years_from start (suc n) = start ∷ years_from (suc start) n

months : Bool → List (Option ℕ)
months false = none ∷ []
months true = map some (years_from 1 12)

pairs : List ℕ → List (Option ℕ) → List Period
pairs [] ms = []
pairs (y ∷ ys) ms = map (λ m. (y, m)) ms ++ pairs ys ms

unfoldable pub periods_of : ℕ → ℕ → Bool → List Period
unfolding years_from months pairs
periods_of year_from year_to monthly =
    pairs (years_from year_from (year_to + 1 - year_from)) (months monthly)

abbrev pub is_done : Option IngestCursor → Bool
is_done none = false
is_done (some row) = row.status == codes "done"

module _ (ingest : ℕ → Option ℕ → World → Effect SourceFetchResult) (source kind : Text) where
  -- The record of a period that returned, and of one that raised.
  recorded : Text → Cursors → Effect SourceFetchResult → Backfill
  recorded cursor cursors (w, ok result) = record {
    world = w;
    cursors =
        record_ingest_cursor source kind cursor (codes "done") (length result.tenders) none cursors;
  }
  recorded cursor cursors (w, raised e) = record {
    world = w;
    cursors = record_ingest_cursor source kind cursor (codes "failed") 0 (some e) cursors;
  }

  -- One turn of the loop.
  unfoldable pub backfill_period : Period → Backfill → Backfill
  unfolding recorded cursor_of
  backfill_period p b = elim (is_done (get_ingest_cursor source kind (cursor_of p) b.cursors)) [
    | true ↦ b
    | false ↦ recorded (cursor_of p) b.cursors (ingest (p.0) (p.1) b.world)
  ]

  unfoldable pub backfill_periods : List Period → Backfill → Backfill
  unfolding backfill_period
  backfill_periods [] b = b
  backfill_periods (p ∷ ps) b = backfill_periods ps (backfill_period p b)

-- The kind of a text: `PLACSPDatasetKind(kind)`.
kind_among : List PlacspDatasetKind → Text → Option PlacspDatasetKind
kind_among [] kind = none
kind_among (k ∷ ks) kind = if kind_value k == kind then some k else kind_among ks kind

-- The command: its two guards raise `typer.BadParameter`.
unfoldable pub ingest_backfill :
    (ℕ → Text)
    → (ℕ → ℕ)
    → Persist
    → (PlacspDatasetKind → ℕ → Option ℕ → Result Text SourceFetchResult)
    → Text
    → Text
    → ℕ
    → ℕ
    → Bool
    → Backfill
    → Result Text Backfill
unfolding backfill_periods periods_of placsp_kinds kind_among
ingest_backfill new_id clock persist fetch_period source kind year_from year_to monthly b =
    if not (source == codes "placsp")
    then raised (codes "only --source placsp is supported in v1")
    else elim (kind_among placsp_kinds kind) [
      | none ↦ raised (codes "--kind must be one of the kinds")
      | some k ↦ ok (
          backfill_periods
            (λ year month w. ingest_placsp_period new_id clock persist fetch_period k year month w)
            source kind (periods_of year_from year_to monthly) b)
    ]
