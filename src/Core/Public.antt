-- ===== src/Core/Public.antt =====
-- `PublicTender` of core/models.py: the tender as the tools show it.
use licitaciones_mcp.Base.{Option, some, List, if◌then◌else◌}
use licitaciones_mcp.Base.Dict.{Dict}
use licitaciones_mcp.Base.Int.{ℤ}
use licitaciones_mcp.Base.Text.{Text}
use licitaciones_mcp.Base.Unicode.{Unicode}
use licitaciones_mcp.Core.Models.{
  Tender, TenderSource, TenderStatus, TenderQualityIssue, DateTime, or_empty, source_id,
}
use licitaciones_mcp.Core.Catalogs.{
  status_label, placsp_notice_label, placsp_contract_type_label, placsp_procedure_type_label,
}
use licitaciones_mcp.Core.Scoring.{given}

pub record PublicTender : Type 0 where
  pub id : Text
  pub source : TenderSource
  pub external_id : Text
  pub title : Text
  pub summary : Option Text
  pub buyer_name : Option Text
  pub buyer_tax_id : Option Text
  pub status : TenderStatus
  pub status_label : Option Text
  pub cpv_codes : List Text
  pub nuts_codes : List Text
  pub region : Option Text
  pub country : Text
  pub procedure_type : Option Text
  pub procedure_type_label : Option Text
  pub contract_type : Option Text
  pub contract_type_label : Option Text
  pub notice_type : Option Text
  pub notice_type_label : Option Text
  pub estimated_value : Option ℤ
  pub award_value : Option ℤ
  pub currency : Option Text
  pub published_at : Option DateTime
  pub deadline_at : Option DateTime
  pub awarded_at : Option DateTime
  pub winner_name : Option Text
  pub url : Option Text
  pub source_metadata : Dict Text Text
  pub quality_issues : List TenderQualityIssue

unfoldable pub from_tender : Unicode → Tender → Option Text → PublicTender
from_tender U t id = record {
  id = if given id then or_empty id else source_id t;
  source = t.source;
  external_id = t.external_id;
  title = t.title;
  summary = t.summary;
  buyer_name = t.buyer_name;
  buyer_tax_id = t.buyer_tax_id;
  status = t.status;
  status_label = some (status_label t.status);
  cpv_codes = t.cpv_codes;
  nuts_codes = t.nuts_codes;
  region = t.region;
  country = t.country;
  procedure_type = t.procedure_type;
  procedure_type_label = placsp_procedure_type_label U t.procedure_type;
  contract_type = t.contract_type;
  contract_type_label = placsp_contract_type_label U t.contract_type;
  notice_type = t.notice_type;
  notice_type_label = placsp_notice_label U t.notice_type;
  estimated_value = t.estimated_value;
  award_value = t.award_value;
  currency = t.currency;
  published_at = t.published_at;
  deadline_at = t.deadline_at;
  awarded_at = t.awarded_at;
  winner_name = t.winner_name;
  url = t.url;
  source_metadata = t.source_metadata;
  quality_issues = t.quality_issues;
}
