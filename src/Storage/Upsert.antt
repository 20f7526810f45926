-- ===== src/Storage/Upsert.antt =====
-- `upsert_tenders` of storage/database.py: the tenders by their dedupe key, with the issues of the
-- validation merged in. `new_id` gives the id of a new row from the number of rows.
pub mod Merge
use licitaciones_mcp.Base.{
  ℕ, ◌≡◌, Bool, true, false, not, ◌&&◌, ◌||◌, Option, none, some, List, [], ◌∷◌, ◌++◌, map, length,
  contains, if◌then◌else◌, list_eq, nat_eq, option_eq, ◌==◌, Eq,
}
use licitaciones_mcp.Base.Dict.{Dict, lookup, insert}
use licitaciones_mcp.Base.Text.{Text}
use licitaciones_mcp.Base.Unicode.{Unicode}
use licitaciones_mcp.Core.Models.{Tender, TenderQualityIssue, or_empty}
use licitaciones_mcp.Core.Quality.{validate_tender}
use licitaciones_mcp.Core.Dedupe.{attach_dedupe_key}

-- `(issue.code, issue.field)` is in `seen`.
unfoldable pub is_seen : List (Text × Option Text) → TenderQualityIssue → Bool
is_seen [] issue = false
is_seen ((code, field) ∷ seen) issue =
    (code == issue.code && field == issue.field) || is_seen seen issue

abbrev pub issue_key : TenderQualityIssue → Text × Option Text
issue_key issue = (issue.code, issue.field)

-- The loop over the generated issues: `merged` and `seen` grow together.
unfoldable pub merge_from :
    List TenderQualityIssue
    → List (Text × Option Text)
    → List TenderQualityIssue
    → List TenderQualityIssue
unfolding is_seen
merge_from merged seen [] = merged
merge_from merged seen (issue ∷ generated) =
    let fresh = not (is_seen seen issue) in
    merge_from (if fresh then merged ++ issue ∷ [] else merged)
      (if fresh then issue_key issue ∷ seen else seen) generated

unfoldable pub merge_quality_issues :
    List TenderQualityIssue → List TenderQualityIssue → List TenderQualityIssue
unfolding merge_from
merge_quality_issues existing generated = merge_from existing (map issue_key existing) generated

-- A row: its id, and what `_apply_tender` writes.
pub record TenderRecord : Type 0 where
  pub id : Text
  pub tender : Tender

module _ (U : Unicode) (sha256 : Text → Text) (iso_date : ℕ → Text) (new_id : ℕ → Text) where
  abbrev pub checked : Tender → Tender
  checked t = record t {
    quality_issues = merge_quality_issues t.quality_issues (validate_tender U t);
  }

  row_id : Dict Text TenderRecord → Option TenderRecord → Text
  row_id rows none = new_id (length rows)
  row_id rows (some r) = r.id

  unfoldable pub upsert_tender : Tender → Dict Text TenderRecord → Dict Text TenderRecord × Text
  unfolding row_id
  upsert_tender t rows =
      let key = or_empty t.dedupe_key in
      let id = row_id rows (lookup key rows) in
      (insert key (record { id = id; tender = checked t }) rows, id)

  unfoldable pub upsert_tenders :
      List Tender → Dict Text TenderRecord → Dict Text TenderRecord × List Text
  unfolding upsert_tender
  upsert_tenders [] rows = (rows, [])
  upsert_tenders (t ∷ ts) rows =
      let (rows1, id) = upsert_tender (attach_dedupe_key U sha256 iso_date t) rows in
      let (rows2, ids) = upsert_tenders ts rows1 in (rows2, id ∷ ids)
