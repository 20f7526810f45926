-- ===== src/Tests/ServicesTests.antt =====
-- The export, the documents, the command line and the retries at concrete inputs.
use licitaciones_mcp.Base.{
  ℕ, ◌-◌, ◌≤◌, ◌<◌, ◌≡◌, refl, ◌⊎◌, true, false, Option, none, some, List, [], ◌∷◌, All, length,
  list_eq, arith, eqb, if◌then◌else◌, nat_eq,
}
use licitaciones_mcp.Base.Dict.{lookup}
use licitaciones_mcp.Base.Int.{pos}
use licitaciones_mcp.Base.Result.{ok, raised}
use licitaciones_mcp.Base.Text.{Text, codes}
use licitaciones_mcp.Core.Json.{Fields}
use licitaciones_mcp.Base.Unicode.{ascii_only}
use licitaciones_mcp.Cli.Backfill.{Backfill, Period, is_done, backfill_periods}
use licitaciones_mcp.Cli.Backfill.Resume.{cursor_at, has_ended, backfill_periods_resume}
use licitaciones_mcp.Cli.DocumentsProcess.{Processing, process_batch}
use licitaciones_mcp.Cli.DocumentsProcess.Progress.{waits, process_batch_lem}
use licitaciones_mcp.Documents.Download.{
  Numbers, Response, exceeds, declared_size, download_document,
}
use licitaciones_mcp.Documents.Download.Cap.{joined, download_document_lem}
use licitaciones_mcp.Documents.Processor.{ParsedDocument}
use licitaciones_mcp.Http.Retry.{Waits, IsWaits, Sent, answered, request_with_retries}
use licitaciones_mcp.Http.Retry.Bounded.{IsBoundedBy, request_with_retries-IsBoundedBy}
use licitaciones_mcp.Jobs.Ingest.{World, SourceFetchResult, Effect}
use licitaciones_mcp.Ocds.Release.{Export, tender_to_release}
use licitaciones_mcp.Ocds.Release.Parties.{RefersToParty, tender_to_release-RefersToParty}
use licitaciones_mcp.Tests.{software, plain_sha, empty_world}

abbrev export : Export
export = record {
  sha256 = plain_sha;
  isoformat = λ d. codes "2026-01-01";
  amount = λ n. codes "1";
  now = codes "2026-01-01";
}

tender_to_release-RefersToParty_example :
    RefersToParty ascii_only export software
      (tender_to_release ascii_only export software (codes "ocds-1"))
tender_to_release-RefersToParty_example =
    tender_to_release-RefersToParty ascii_only export software (codes "ocds-1")

abbrev two_years : List Period
two_years = (2023, none) ∷ (2024, none) ∷ []

-- One year is found, the other one fails.
abbrev ingest : ℕ → Option ℕ → World → Effect SourceFetchResult
ingest year month w =
    if eqb year 2023
    then (w, ok (record { tenders = software ∷ []; source_cursor = none }))
    else (w, raised (codes "timeout"))

abbrev start : Backfill
start = record { world = empty_world; cursors = [] }

abbrev finish : Backfill
finish = backfill_periods ingest (codes "placsp") (codes "licitaciones") two_years start

backfill_periods_resume_example :
    All
      (λ p.
        has_ended ingest
          (codes "placsp")
          (codes "licitaciones")
          (cursor_at ingest (codes "placsp") (codes "licitaciones") p finish.cursors)
        ≡ true)
      two_years
    × ((k : List Text)
        → is_done (lookup k start.cursors) ≡ true
        → lookup k finish.cursors ≡ lookup k start.cursors)
    × (All
          (λ p.
            is_done (cursor_at ingest (codes "placsp") (codes "licitaciones") p start.cursors)
            ≡ true)
          two_years
        → finish ≡ start)
backfill_periods_resume_example =
    backfill_periods_resume ingest (codes "placsp") (codes "licitaciones") two_years start

abbrev numbers : Numbers
numbers = record { int_of = λ s. some (pos 3); shown = λ n. codes "3" }

abbrev small_file : Response
small_file = record {
  status = ok tt;
  content_length = some (codes "3");
  content_type = none;
  chunks = (1 ∷ 2 ∷ []) ∷ (3 ∷ []) ∷ [];
}

download_document_lem_example :
    ((exceeds 3 (declared_size numbers small_file) ≡ false)
        × (length (joined small_file.chunks) ≤ 3)
      → download_document numbers (λ url. ok small_file) (codes "u") 3
        ≡ ok (record { url = codes "u"; content = joined small_file.chunks; content_type = none }))
    × ((exceeds 3 (declared_size numbers small_file) ≡ true)
          ⊎ (3 < length (joined small_file.chunks))
        → (e : Text) × (download_document numbers (λ url. ok small_file) (codes "u") 3 ≡ raised e))
download_document_lem_example =
    download_document_lem numbers 3 (λ url. ok small_file) (codes "u") small_file refl refl

abbrev no_document : Text → Option ParsedDocument × Option Text
no_document url = (none, some (codes "unsupported document"))

abbrev pending : Processing
pending = record {
  documents =
      (
        codes "d-1",
        record {
          url = codes "u";
          title = none;
          document_type = none;
          published_at = none;
          extra_metadata = Fields.end;
          extracted_text = none;
          extracted_sections = none;
          parser_name = none;
          parsed_at = none;
          parse_error = none;
        },
      )
      ∷ [];
  ticks = 0;
  processed = 0;
  failed = 0;
}

abbrev processed_batch : Processing
processed_batch =
    process_batch (λ n. n) no_document (λ a b. true) ((codes "d-1", codes "u") ∷ []) pending

process_batch_lem_example :
    All {A = Text × Text}
      (λ e. waits (lookup (e.0) processed_batch.documents) ≡ false)
      ((codes "d-1", codes "u") ∷ [])
    × ((k : Text)
        → waits (lookup k pending.documents) ≡ false
        → waits (lookup k processed_batch.documents) ≡ false)
process_batch_lem_example =
    process_batch_lem (λ n. n) no_document (λ a b. true) ((codes "d-1", codes "u") ∷ []) pending

-- `Retry-After: 120` is cut to thirty seconds.
abbrev long_wait : Waits
long_wait = record {
  seconds = λ s. some (pos 120000);
  until_date = λ s. none;
  exponential = λ n. 1000;
}

long_wait-IsWaits : IsWaits long_wait
long_wait-IsWaits = record { exponential_max = λ n. omega arith }

abbrev busy_once : ℕ → Sent
busy_once n =
    if eqb n 1
    then answered (record { status_code = 429; retry_after = some (codes "120") })
    else answered (record { status_code = 200; retry_after = none })

-- The limiter makes the second attempt wait.
abbrev second_waits : ℕ → List ℕ
second_waits n = if eqb n 2 then 500 ∷ [] else []

request_with_retries-IsBoundedBy_example :
    IsBoundedBy long_wait long_wait-IsWaits second_waits 1
      (3 - 1)
      (request_with_retries long_wait busy_once second_waits 3)
request_with_retries-IsBoundedBy_example =
    request_with_retries-IsBoundedBy long_wait long_wait-IsWaits busy_once second_waits 3
