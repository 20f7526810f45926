-- ===== src/Core/Quality/Clean.antt =====
-- The tenders that pass every check, and the codes that the normalization lets through.
use licitaciones_mcp.Base.{◌≡◌, true, false, non_empty, All, list_eq, nat_eq}
use licitaciones_mcp.Base.Text.{Text}
use licitaciones_mcp.Base.Unicode.{Unicode}
use licitaciones_mcp.Core.Models.{Tender, placsp, or_empty}
use licitaciones_mcp.Core.Catalogs.{
  placsp_notice_types, placsp_contract_types, placsp_procedure_types,
}
use licitaciones_mcp.Core.Scoring.{given}
use licitaciones_mcp.Core.Quality.Checks.{
  IsCpvCode, IsNutsCode, IsTaxId, HasPlainValue, HasOrder, HasDeadline, HasPlainAward, IsKnown,
}
use licitaciones_mcp.Core.Quality.{
  is_valid_cpv_code, is_valid_nuts_code, wrong_tax_id, negative_value, outlier_value,
  deadline_first, award_exceeds, open_without_deadline, is_unknown_code,
}

-- The tests that a tender passes, one by one.
record IsPassed (U : Unicode) (t : Tender) : Type 0 where
  pub has_cpv : non_empty t.cpv_codes ≡ true
  pub cpvs : All (λ c. is_valid_cpv_code U c ≡ true) t.cpv_codes
  pub nuts : All (λ c. is_valid_nuts_code U c ≡ true) t.nuts_codes
  pub tax_id : wrong_tax_id U t.buyer_tax_id ≡ false
  pub not_negative : negative_value t ≡ false
  pub not_outlier : outlier_value t ≡ false
  pub deadline : deadline_first t ≡ false
  pub open_deadline : open_without_deadline t ≡ false
  pub award : award_exceeds t ≡ false
  pub buyer : given t.buyer_name ≡ true
  pub notice : t.source ≡ placsp → is_unknown_code U placsp_notice_types t.notice_type ≡ false
  pub contract : t.source ≡ placsp → is_unknown_code U placsp_contract_types t.contract_type ≡ false
  pub procedure :
      t.source ≡ placsp → is_unknown_code U placsp_procedure_types t.procedure_type ≡ false

-- What a clean tender is, by its values.
pub record IsClean (U : Unicode) (t : Tender) : Type 0 where
  pub has_cpv : non_empty t.cpv_codes ≡ true
  pub cpvs : All (IsCpvCode U) t.cpv_codes
  pub nuts : All (IsNutsCode U) t.nuts_codes
  pub tax_id : given t.buyer_tax_id ≡ true → IsTaxId U (or_empty t.buyer_tax_id)
  pub value : HasPlainValue t
  pub order : HasOrder t
  pub open_deadline : HasDeadline t
  pub award : HasPlainAward t
  pub buyer : given t.buyer_name ≡ true
  pub notice : t.source ≡ placsp → IsKnown U placsp_notice_types t.notice_type
  pub contract : t.source ≡ placsp → IsKnown U placsp_contract_types t.contract_type
  pub procedure : t.source ≡ placsp → IsKnown U placsp_procedure_types t.procedure_type
