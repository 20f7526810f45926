-- ===== src/Storage/Records/RoundTrip.antt =====
-- A tender that is written to its row is read back.
use licitaciones_mcp.Core.Parsing.{at_utc}
use licitaciones_mcp.Base.{
  Option, none, ap₂, ◌≡◌, refl, true, some, List, [], ◌∷◌, map, if◌then◌else◌, list_eq, nat_eq,
}
use licitaciones_mcp.Base.Result.{ok}
use licitaciones_mcp.Base.Unicode.{Unicode}
use licitaciones_mcp.Core.Countries.{country_or_xx}
use licitaciones_mcp.Core.Models.{
  DateTime, Tender, TenderDocument, TenderQualityIssue, TenderQualitySeverity, warning, error,
  TenderSource, TenderStatus, placsp, ted, planned, open_, closed, awarded, cancelled, unknown,
  or_empty, source_value, status_value, source_id,
}
use licitaciones_mcp.Core.Scoring.{given}
use licitaciones_mcp.Storage.Records.{
  stored_moment, loaded_moment, TenderColumns, apply_tender, record_to_tender, source_of_value,
  status_of_value, severity_value, severity_of_value, validate_issue, validate_issues, dump_issue,
  document_to_record, record_to_document,
}

source_of_value-source_value : (s : TenderSource) → source_of_value (source_value s) ≡ ok s
unfolding source_of_value source_value list_eq
source_of_value-source_value placsp = refl
source_of_value-source_value ted = refl

status_of_value-status_value : (s : TenderStatus) → status_of_value (status_value s) ≡ ok s
unfolding status_of_value status_value list_eq
status_of_value-status_value planned = refl
status_of_value-status_value open_ = refl
status_of_value-status_value closed = refl
status_of_value-status_value awarded = refl
status_of_value-status_value cancelled = refl
status_of_value-status_value unknown = refl

severity_of_value-severity_value :
    (s : TenderQualitySeverity) → severity_of_value (severity_value s) ≡ ok s
unfolding severity_of_value list_eq
severity_of_value-severity_value warning = refl
severity_of_value-severity_value error = refl

validate_issue-dump_issue : (i : TenderQualityIssue) → validate_issue (dump_issue i) ≡ ok i
unfolding validate_issue
validate_issue-dump_issue i = rw (severity_of_value-severity_value i.severity) refl

validate_issues-dump_issue :
    (is : List TenderQualityIssue) → validate_issues (map dump_issue is) ≡ ok is
unfolding validate_issues
validate_issues-dump_issue [] = refl
validate_issues-dump_issue (i ∷ is) =
    rw (validate_issue-dump_issue i, validate_issues-dump_issue is) refl

-- The same instant, in UTC, and a document and a tender with their moments in UTC.
abbrev pub in_utc : Option DateTime → Option DateTime
in_utc none = none
in_utc (some d) = some (at_utc d.instant)

abbrev pub document_in_utc : TenderDocument → TenderDocument
document_in_utc d = record d { published_at = in_utc d.published_at }

abbrev pub tender_in_utc : Tender → Tender
tender_in_utc t = record t {
  published_at = in_utc t.published_at;
  deadline_at = in_utc t.deadline_at;
  awarded_at = in_utc t.awarded_at;
  documents = map document_in_utc t.documents;
}

loaded-stored : (o : Option DateTime) → loaded_moment (stored_moment o) ≡ in_utc o
loaded-stored none = refl
loaded-stored (some d) = refl

document_round_trip :
    (d : TenderDocument) → record_to_document (document_to_record d) ≡ document_in_utc d
document_round_trip d = rw (loaded-stored d.published_at) refl

documents_round_trip :
    (ds : List TenderDocument)
    → map record_to_document (map document_to_record ds) ≡ map document_in_utc ds
documents_round_trip [] = refl
documents_round_trip (d ∷ ds) =
    ap₂ (λ e rest. e ∷ rest) (document_round_trip d) (documents_round_trip ds)

-- A tender that has been written to a row, whatever stood there, is read back as it was, its moments
-- and those of its documents as the same instants in UTC, with the id of the row and a key: its own,
-- or else its source id. Its country is one that the validator of the class leaves as it is.
pub record_to_tender-apply_tender :
    (U : Unicode) (r : TenderColumns) (t : Tender)
    → country_or_xx U (some t.country) ≡ t.country
    → record_to_tender U (apply_tender r t) true
      ≡ ok (record (tender_in_utc t) {
        id = some r.id;
        dedupe_key = some (if given t.dedupe_key then or_empty t.dedupe_key else source_id t);
      })
unfolding record_to_tender apply_tender
record_to_tender-apply_tender U r t country =
    rw
      (
        source_of_value-source_value t.source,
        status_of_value-status_value t.status,
        validate_issues-dump_issue t.quality_issues,
        documents_round_trip t.documents,
        loaded-stored t.published_at,
        loaded-stored t.deadline_at,
        loaded-stored t.awarded_at,
        country,
      )
      refl
