-- ===== src/Cli/DocumentsProcess/Progress.antt =====
-- A batch deals with each of its documents.
use licitaciones_mcp.Base.{
  ℕ, ◌≡◌, refl, Bool, false, ◌&&◌, Option, none, some, List, [], ◌∷◌, All, inl, inr, Bool-cases,
  Option-cases, if◌then◌else◌, ◌==◌, list_eq, nat_eq, eq_self,
}
use licitaciones_mcp.Base.Dict.{lookup, lookup-insert}
use licitaciones_mcp.Base.Text.{Text}
use licitaciones_mcp.Documents.Processor.{ParsedDocument}
use licitaciones_mcp.Storage.Documents.{
  Documents, ParseOutcome, is_pending, is_null, parsed_record, record_document_parse,
}
use licitaciones_mcp.Storage.FetchRuns.{sanitize_error}
use licitaciones_mcp.Storage.Records.{TenderDocumentRecord}
use licitaciones_mcp.Cli.DocumentsProcess.{Processing, stored, process_batch}

-- The document is there and waits for the parser.
abbrev pub waits : Option TenderDocumentRecord → Bool
waits none = false
waits (some d) = is_pending d

parsed_record_waits :
    (now : ℕ) (o : ParseOutcome) (d : TenderDocumentRecord)
    → is_pending (parsed_record now o d) ≡ false
parsed_record_waits now o d = waits_not (sanitize_error o.error)
  where
    waits_not :
        (e : Option Text) → (is_null (if is_null e then some now else none) && is_null e) ≡ false
    waits_not none = refl
    waits_not (some s) = refl

record_document_parse_at :
    (id k : Text) (o : ParseOutcome) (now : ℕ) (documents : Documents)
    → waits (lookup k documents) ≡ false
    → waits (lookup k (record_document_parse id o now documents)) ≡ false
unfolding record_document_parse
record_document_parse_at id k o now documents h = elim (Option-cases (lookup id documents)) [
  | inl e ↦ rw (record_document_parse, e) h
  | inr (d, e) ↦ elim (Bool-cases (id == k)) [
    | inl same ↦
        rw (record_document_parse, e, lookup-insert id k (parsed_record now o d) documents, same)
          (parsed_record_waits now o d)
    | inr other ↦
        rw (record_document_parse, e, lookup-insert id k (parsed_record now o d) documents, other) h
  ]
]

record_document_parse_own :
    (id : Text) (o : ParseOutcome) (now : ℕ) (documents : Documents)
    → waits (lookup id (record_document_parse id o now documents)) ≡ false
unfolding record_document_parse
record_document_parse_own id o now documents = elim (Option-cases (lookup id documents)) [
  | inl e ↦ rw (record_document_parse, e, e) refl
  | inr (d, e) ↦
      rw
        (
          record_document_parse,
          e,
          lookup-insert id id (parsed_record now o d) documents,
          eq_self id,
        )
        (parsed_record_waits now o d)
]

module _ (clock : ℕ → ℕ) (process : Text → Option ParsedDocument × Option Text)
    (before : Text → Text → Bool) where
  stored_at :
      (id k : Text) (r : Option ParsedDocument × Option Text) (s : Processing)
      → waits (lookup k s.documents) ≡ false
      → waits (lookup k (stored clock process before id r s).documents) ≡ false
  unfolding stored
  stored_at id k (none, e) s h = record_document_parse_at id k _ (clock s.ticks) s.documents h
  stored_at id k (some p, e) s h = record_document_parse_at id k _ (clock s.ticks) s.documents h

  stored_own :
      (id : Text) (r : Option ParsedDocument × Option Text) (s : Processing)
      → waits (lookup id (stored clock process before id r s).documents) ≡ false
  unfolding stored
  stored_own id (none, e) s = record_document_parse_own id _ (clock s.ticks) s.documents
  stored_own id (some p, e) s = record_document_parse_own id _ (clock s.ticks) s.documents

  process_batch_at :
      (k : Text) (entries : List (Text × Text)) (s : Processing)
      → waits (lookup k s.documents) ≡ false
      → waits (lookup k (process_batch clock process before entries s).documents) ≡ false
  unfolding process_batch
  process_batch_at k [] s h = h
  process_batch_at k ((id, url) ∷ entries) s h =
      process_batch_at k entries (stored clock process before id (process url) s)
        (stored_at id k (process url) s h)

  -- After a batch, whether its documents could be downloaded and parsed or not, none of them waits
  -- any more, and no document that did not wait does so again: no document blocks the queue.
  pub process_batch_lem :
      (entries : List (Text × Text)) (s : Processing)
      → let after = (process_batch clock process before entries s).documents in
        All (λ e. waits (lookup (e.0) after) ≡ false) entries
        × ((k : Text) → waits (lookup k s.documents) ≡ false → waits (lookup k after) ≡ false)
  unfolding process_batch
  process_batch_lem [] s = (tt, λ k h. h)
  process_batch_lem ((id, url) ∷ entries) s =
      let next = stored clock process before id (process url) s in
      let (rest, kept) = process_batch_lem entries next in
      (
        (kept id (stored_own id (process url) s), rest),
        λ k h. kept k (stored_at id k (process url) s h),
      )
