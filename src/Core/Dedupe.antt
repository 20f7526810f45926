-- ===== src/Core/Dedupe.antt =====
-- core/dedupe.py: the key by which a tender is stored. SHA-256 of a text, as hexadecimal digits, is
-- the parameter `sha256`, and `isoformat` of a day is the parameter `iso_date`.
pub mod Keys
use licitaciones_mcp.Base.{
  ℕ, ◌≡◌, Bool, true, false, Option, none, some, List, [], ◌∷◌, ◌++◌, non_empty, if◌then◌else◌,
}
use licitaciones_mcp.Base.Text.{Text, codes, join}
use licitaciones_mcp.Base.Unicode.{Unicode}
use licitaciones_mcp.Core.Models.{Tender, DateTime, or_empty, source_value}
use licitaciones_mcp.Core.Normalization.{fold_text}
use licitaciones_mcp.Core.Scoring.{given}

date_part : (ℕ → Text) → Option DateTime → Text
date_part iso_date none = []
date_part iso_date (some d) = iso_date d.date

module _ (U : Unicode) (sha256 : Text → Text) (iso_date : ℕ → Text) where
  unfoldable pub build_dedupe_key : Tender → Text
  unfolding date_part
  build_dedupe_key t =
      if non_empty t.external_id
      then source_value t.source ++ (codes ":" ++ t.external_id)
      else codes "sha256:"
        ++ sha256 (
            join (codes "|") (
              fold_text U (some t.title)
              ∷ fold_text U t.buyer_name
              ∷ date_part iso_date t.published_at
              ∷ or_empty t.url
              ∷ []))

  unfoldable pub attach_dedupe_key : Tender → Tender
  unfolding build_dedupe_key
  attach_dedupe_key t = record t {
    dedupe_key = if given t.dedupe_key then t.dedupe_key else some (build_dedupe_key t);
  }
