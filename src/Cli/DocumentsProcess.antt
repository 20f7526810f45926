-- ===== src/Cli/DocumentsProcess.antt =====
-- `documents_process` of cli.py: the pending documents, in batches.
pub mod Progress
use licitaciones_mcp.Base.{ℕ, zero, suc, Bool, Option, none, some, List, [], ◌∷◌, list_eq, nat_eq}
use licitaciones_mcp.Base.Text.{Text}
use licitaciones_mcp.Documents.Processor.{ParsedDocument}
use licitaciones_mcp.Storage.Documents.{
  Documents, ParseOutcome, list_pending_documents, record_document_parse,
}

-- The table, the ticks of the clock, and the two counts.
pub record Processing : Type 0 where
  pub documents : Documents
  pub ticks : ℕ
  pub processed : ℕ
  pub failed : ℕ

failed_parse : Option Text → ParseOutcome
failed_parse error = record { text = none; sections = none; parser_name = none; error = error }

done_parse : ParsedDocument → ParseOutcome
done_parse p = record {
  text = some p.text;
  sections = some p.sections;
  parser_name = some p.parser_name;
  error = none;
}

module _ (clock : ℕ → ℕ) (process : Text → Option ParsedDocument × Option Text)
    (before : Text → Text → Bool) where
  -- The record of what `process_document` returns for an entry.
  stored : Text → Option ParsedDocument × Option Text → Processing → Processing
  unfolding failed_parse done_parse
  stored id (none, error) s = record {
    documents = record_document_parse id (failed_parse error) (clock s.ticks) s.documents;
    ticks = suc s.ticks;
    processed = s.processed;
    failed = suc s.failed;
  }
  stored id (some parsed, error) s = record {
    documents = record_document_parse id (done_parse parsed) (clock s.ticks) s.documents;
    ticks = suc s.ticks;
    processed = suc s.processed;
    failed = s.failed;
  }

  unfoldable pub process_batch : List (Text × Text) → Processing → Processing
  unfolding stored
  process_batch [] s = s
  process_batch ((id, url) ∷ entries) s = process_batch entries (stored id (process url) s)

  -- `range(max_batches)`, with the `break` where nothing is pending
  unfoldable pub documents_process : ℕ → ℕ → Processing → Processing
  unfolding process_batch
  documents_process batch_size zero s = s
  documents_process batch_size (suc batches) s =
      elim (list_pending_documents before batch_size s.documents) [
        | [] ↦ s
        | entry ∷ entries ↦ documents_process batch_size batches (process_batch (entry ∷ entries) s)
      ]
