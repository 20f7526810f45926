-- ===== src/Storage/Cursors.antt =====
-- The ingest cursors of storage/database.py: the table by source, kind and cursor, which its
-- constraint keeps unique. The moments of creation and update are left out.
use licitaciones_mcp.Base.{ℕ, ◌+◌, Option, none, some, List, [], ◌∷◌, list_eq, nat_eq}
use licitaciones_mcp.Base.Dict.{Dict, lookup, insert}
use licitaciones_mcp.Base.Text.{Text}

-- `IngestCursorRecord`
pub record IngestCursor : Type 0 where
  pub status : Text
  pub attempts : ℕ
  pub result_count : ℕ
  pub last_error : Option Text

-- A key is the list of its three columns.
abbrev pub Cursors : Type 0
Cursors = Dict (List Text) IngestCursor

abbrev pub cursor_key : Text → Text → Text → List Text
cursor_key source kind cursor = source ∷ kind ∷ cursor ∷ []

unfoldable pub get_ingest_cursor : Text → Text → Text → Cursors → Option IngestCursor
get_ingest_cursor source kind cursor cursors = lookup (cursor_key source kind cursor) cursors

attempts_before : Option IngestCursor → ℕ
attempts_before none = 0
attempts_before (some row) = row.attempts

-- An insert, or on a conflict an update that counts the attempt.
unfoldable pub record_ingest_cursor :
    Text → Text → Text → Text → ℕ → Option Text → Cursors → Cursors
unfolding attempts_before
record_ingest_cursor source kind cursor status result_count last_error cursors =
    let key = cursor_key source kind cursor in
    insert key
      (record {
        status = status;
        attempts = attempts_before (lookup key cursors) + 1;
        result_count = result_count;
        last_error = last_error;
      })
      cursors
