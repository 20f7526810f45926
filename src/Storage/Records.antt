-- ===== src/Storage/Records.antt =====
-- The row of a tender: storage/models.py, with the two ways between a tender and its row of
-- storage/database.py. JSON columns hold what their values decode to; the issues of the quality
-- check are kept with their severity as text.
pub mod RoundTrip
use licitaciones_mcp.Base.{
  ℕ, Bool, true, false, Option, none, some, List, [], ◌∷◌, map, if◌then◌else◌, ◌==◌, list_eq,
  nat_eq,
}
use licitaciones_mcp.Base.Dict.{Dict}
use licitaciones_mcp.Base.Int.{ℤ}
use licitaciones_mcp.Base.Result.{Result, ok, raised, ◌>>=◌}
use licitaciones_mcp.Base.Text.{Text, codes}
use licitaciones_mcp.Base.Unicode.{Unicode}
use licitaciones_mcp.Core.Countries.{country_or_xx}
use licitaciones_mcp.Core.Json.{Json, Fields}
use licitaciones_mcp.Core.Parsing.{at_utc}
use licitaciones_mcp.Core.Models.{
  Tender, TenderDocument, TenderQualityIssue, TenderQualitySeverity, warning, error, TenderSource,
  TenderStatus, placsp, ted, planned, open_, closed, awarded, cancelled, unknown, DateTime,
  or_empty, source_value, status_value, source_id,
}
use licitaciones_mcp.Core.Scoring.{given}

-- A column `DateTime(timezone=True)` keeps the instant, without the zone in which it was written, and
-- the driver reads it in UTC.
abbrev stored_moment : Option DateTime → Option ℕ
stored_moment none = none
stored_moment (some d) = some d.instant

abbrev loaded_moment : Option ℕ → Option DateTime
loaded_moment none = none
loaded_moment (some n) = some (at_utc n)

pub record IssueColumn : Type 0 where
  pub code : Text
  pub severity : Text
  pub message : Text
  pub field : Option Text

pub record TenderDocumentRecord : Type 0 where
  pub url : Text
  pub title : Option Text
  pub document_type : Option Text
  pub published_at : Option ℕ
  pub extra_metadata : Fields
  pub extracted_text : Option Text
  pub extracted_sections : Option (List (ℕ × Text))
  pub parser_name : Option Text
  pub parsed_at : Option ℕ
  pub parse_error : Option Text

-- The columns of `TenderRecord`, less the moments of its creation and update.
pub record TenderColumns : Type 0 where
  pub id : Text
  pub source : Text
  pub external_id : Text
  pub dedupe_key : Text
  pub title : Text
  pub summary : Option Text
  pub buyer_name : Option Text
  pub buyer_tax_id : Option Text
  pub status : Text
  pub cpv_codes : List Text
  pub nuts_codes : List Text
  pub region : Option Text
  pub country : Text
  pub procedure_type : Option Text
  pub contract_type : Option Text
  pub notice_type : Option Text
  pub estimated_value : Option ℤ
  pub award_value : Option ℤ
  pub currency : Option Text
  pub published_at : Option ℕ
  pub deadline_at : Option ℕ
  pub awarded_at : Option ℕ
  pub winner_name : Option Text
  pub winner_tax_id : Option Text
  pub url : Option Text
  pub raw : Json
  pub source_metadata : Dict Text Text
  pub quality_issues : List IssueColumn
  pub documents : List TenderDocumentRecord

abbrev severity_value : TenderQualitySeverity → Text
severity_value warning = codes "warning"
severity_value error = codes "error"

-- `issue.model_dump(mode="json")`
abbrev dump_issue : TenderQualityIssue → IssueColumn
dump_issue i = record {
  code = i.code;
  severity = severity_value i.severity;
  message = i.message;
  field = i.field;
}

abbrev document_to_record : TenderDocument → TenderDocumentRecord
document_to_record d = record {
  url = d.url;
  title = d.title;
  document_type = d.document_type;
  published_at = stored_moment d.published_at;
  extra_metadata = d.metadata;
  extracted_text = none;
  extracted_sections = none;
  parser_name = none;
  parsed_at = none;
  parse_error = none;
}

-- `_apply_tender`, and the documents that `_upsert_tender` sets next to it. The row keeps its id.
unfoldable pub apply_tender : TenderColumns → Tender → TenderColumns
apply_tender r t = record r {
  source = source_value t.source;
  external_id = t.external_id;
  dedupe_key = if given t.dedupe_key then or_empty t.dedupe_key else source_id t;
  title = t.title;
  summary = t.summary;
  buyer_name = t.buyer_name;
  buyer_tax_id = t.buyer_tax_id;
  status = status_value t.status;
  cpv_codes = t.cpv_codes;
  nuts_codes = t.nuts_codes;
  region = t.region;
  country = t.country;
  procedure_type = t.procedure_type;
  contract_type = t.contract_type;
  notice_type = t.notice_type;
  estimated_value = t.estimated_value;
  award_value = t.award_value;
  currency = t.currency;
  published_at = stored_moment t.published_at;
  deadline_at = stored_moment t.deadline_at;
  awarded_at = stored_moment t.awarded_at;
  winner_name = t.winner_name;
  winner_tax_id = t.winner_tax_id;
  url = t.url;
  raw = t.raw;
  source_metadata = t.source_metadata;
  quality_issues = map dump_issue t.quality_issues;
  documents = map document_to_record t.documents;
}

-- `TenderSource(value)`, `TenderStatus(value)` and the severity: a `ValueError` for another text.
unfoldable pub source_of_value : Text → Result Text TenderSource
source_of_value s =
    if s == codes "placsp" then ok placsp else if s == codes "ted" then ok ted else raised s

unfoldable pub status_of_value : Text → Result Text TenderStatus
status_of_value s =
    if s == codes "planned"
    then ok planned
    else if s == codes "open"
    then ok open_
    else if s == codes "closed"
    then ok closed
    else if s == codes "awarded"
    then ok awarded
    else if s == codes "cancelled"
    then ok cancelled
    else if s == codes "unknown"
    then ok unknown
    else raised s

severity_of_value : Text → Result Text TenderQualitySeverity
severity_of_value s =
    if s == codes "warning" then ok warning else if s == codes "error" then ok error else raised s

validate_issue : IssueColumn → Result Text TenderQualityIssue
unfolding severity_of_value
validate_issue i =
    severity_of_value i.severity
    >>= (λ s. ok (record { code = i.code; severity = s; message = i.message; field = i.field }))

validate_issues : List IssueColumn → Result Text (List TenderQualityIssue)
unfolding validate_issue
validate_issues [] = ok []
validate_issues (i ∷ is) =
    let rest = validate_issues is in
    validate_issue i >>= (λ issue. rest >>= (λ issues. ok (issue ∷ issues)))

abbrev record_to_document : TenderDocumentRecord → TenderDocument
record_to_document d = record {
  url = d.url;
  title = d.title;
  document_type = d.document_type;
  published_at = loaded_moment d.published_at;
  metadata = d.extra_metadata;
}

module _ (U : Unicode) where
  abbrev tender_of_columns :
      TenderColumns → Bool → TenderSource → TenderStatus → List TenderQualityIssue → Tender
  tender_of_columns r include_documents source status issues = record {
    id = some r.id;
    source = source;
    external_id = r.external_id;
    title = r.title;
    summary = r.summary;
    buyer_name = r.buyer_name;
    buyer_tax_id = r.buyer_tax_id;
    status = status;
    cpv_codes = r.cpv_codes;
    nuts_codes = r.nuts_codes;
    region = r.region;
    -- the validator of the class
    country = country_or_xx U (some r.country);
    procedure_type = r.procedure_type;
    contract_type = r.contract_type;
    notice_type = r.notice_type;
    estimated_value = r.estimated_value;
    award_value = r.award_value;
    currency = r.currency;
    published_at = loaded_moment r.published_at;
    deadline_at = loaded_moment r.deadline_at;
    awarded_at = loaded_moment r.awarded_at;
    winner_name = r.winner_name;
    winner_tax_id = r.winner_tax_id;
    url = r.url;
    documents = if include_documents then map record_to_document r.documents else [];
    raw = r.raw;
    source_metadata = r.source_metadata;
    quality_issues = issues;
    dedupe_key = some r.dedupe_key;
  }

  unfoldable pub record_to_tender : TenderColumns → Bool → Result Text Tender
  unfolding validate_issues source_of_value status_of_value
  record_to_tender r include_documents = source_of_value r.source >>= (λ source.
      status_of_value r.status >>= (λ status.
        validate_issues r.quality_issues
        >>= (λ issues. ok (tender_of_columns r include_documents source status issues))))
