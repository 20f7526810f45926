-- ===== src/Storage/Documents.antt =====
-- The documents of storage/database.py: those that wait for the parser, and the outcome of a parse.
-- `before` is the order of the ids in the database.
use licitaciones_mcp.Base.{
  ℕ, max, min, Bool, true, false, ◌&&◌, Option, none, some, List, [], ◌∷◌, take, if◌then◌else◌,
  list_eq, nat_eq,
}
use licitaciones_mcp.Base.Dict.{Dict, lookup, insert}
use licitaciones_mcp.Base.Sort.{sorted}
use licitaciones_mcp.Base.Text.{Text}
use licitaciones_mcp.Storage.FetchRuns.{sanitize_error}
use licitaciones_mcp.Storage.Records.{TenderDocumentRecord}

abbrev pub Documents : Type 0
Documents = Dict Text TenderDocumentRecord

abbrev pub is_null {ℓ} : {A : Type ℓ} → Option A → Bool
is_null none = true
is_null (some _) = false

abbrev pub is_pending : TenderDocumentRecord → Bool
is_pending d = is_null d.parsed_at && is_null d.parse_error

pending_entries : Documents → List (Text × Text)
pending_entries [] = []
pending_entries ((id, d) ∷ ds) =
    let rest = pending_entries ds in if is_pending d then (id, d.url) ∷ rest else rest

-- The ids and the addresses.
unfoldable pub list_pending_documents : (Text → Text → Bool) → ℕ → Documents → List (Text × Text)
unfolding pending_entries
list_pending_documents before limit documents =
    take (max 1 (min limit 1000)) (sorted (λ (a, _) (b, _). before a b) (pending_entries documents))

-- What a parse gives to be stored.
pub record ParseOutcome : Type 0 where
  pub text : Option Text
  pub sections : Option (List (ℕ × Text))
  pub parser_name : Option Text
  pub error : Option Text

abbrev pub parsed_record : ℕ → ParseOutcome → TenderDocumentRecord → TenderDocumentRecord
parsed_record now o d = record d {
  extracted_text = o.text;
  extracted_sections = o.sections;
  parser_name = o.parser_name;
  parsed_at = if is_null (sanitize_error o.error) then some now else none;
  parse_error = sanitize_error o.error;
}

unfoldable pub record_document_parse : Text → ParseOutcome → ℕ → Documents → Documents
record_document_parse id o now documents = elim (lookup id documents) [
  | none ↦ documents
  | some d ↦ insert id (parsed_record now o d) documents
]
