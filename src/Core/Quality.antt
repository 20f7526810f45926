-- ===== src/Core/Quality.antt =====
-- core/quality.py: the checks that name what is wrong with a tender.
pub mod Checks
pub mod Clean
pub mod Normal
use licitaciones_mcp.Base.{
  ℕ, ◌≡◌, Bool, true, false, not, ◌&&◌, ◌||◌, Option, none, some, List, [], ◌∷◌, ◌++◌, map, length,
  take, drop, keep, non_empty, if◌then◌else◌, list_eq, nat_eq, ◌==◌, eqb, leb, ltb, contains,
}
use licitaciones_mcp.Base.Dict.{Dict, keys}
use licitaciones_mcp.Base.Int.{pos, lt_ℤ, scaled_lt}
use licitaciones_mcp.Base.Text.{Text, codes, is_digit_ascii}
use licitaciones_mcp.Base.Unicode.{Unicode}
use licitaciones_mcp.Core.Models.{
  Tender, TenderQualityIssue, TenderQualitySeverity, warning, error, placsp, open_, source_eq,
  status_eq, or_empty,
}
use licitaciones_mcp.Core.Normalization.{normalize_text, or_none}
use licitaciones_mcp.Core.Scoring.{given}
use licitaciones_mcp.Core.Catalogs.{
  placsp_notice_types, placsp_contract_types, placsp_procedure_types,
}

-- A character class repeated over the whole of a text, as in `re.fullmatch`.
every_char : (ℕ → Bool) → Text → Bool
every_char p [] = true
every_char p (c ∷ s) = p c && every_char p s

-- `[A-Z]` and `[A-Z0-9]`
is_capital : ℕ → Bool
is_capital c = leb b'A' c && leb c b'Z'

is_capital_or_digit : ℕ → Bool
unfolding is_capital
is_capital_or_digit c = is_capital c || is_digit_ascii c

-- The `append` of an issue under an `if`.
unfoldable pub report : Bool → TenderQualityIssue → List TenderQualityIssue
report found issue = if found then issue ∷ [] else []

issue_of : Text → TenderQualitySeverity → Text → Text → TenderQualityIssue
issue_of code severity message field = record {
  code = code;
  severity = severity;
  message = message;
  field = some field;
}

-- The loop over the values of one field.
unfoldable pub report_each :
    (Text → Bool) → (Text → TenderQualityIssue) → List Text → List TenderQualityIssue
unfolding report
report_each wrong issue [] = []
report_each wrong issue (v ∷ vs) = report (wrong v) (issue v) ++ report_each wrong issue vs

module _ (U : Unicode) where
  unfoldable pub is_valid_cpv_code : Text → Bool
  unfolding every_char
  is_valid_cpv_code value = eqb (length value) 8 && every_char U.is_decimal value

  unfoldable pub is_valid_nuts_code : Text → Bool
  unfolding every_char is_capital is_capital_or_digit
  is_valid_nuts_code value =
      let code = U.upper value in
      leb 3 (length code)
      && leb (length code) 5
      && every_char is_capital (take 2 code)
      && every_char is_capital_or_digit (drop 2 code)

  unfoldable pub normalize_tax_id : Option Text → Option Text
  normalize_tax_id none = none
  normalize_tax_id (some value) = or_none (keep U.is_alnum (U.upper value))

  unfoldable pub is_valid_spanish_tax_id : Option Text → Bool
  unfolding normalize_tax_id every_char is_capital_or_digit
  is_valid_spanish_tax_id value = elim (normalize_tax_id value) [
    | none ↦ false
    | some code ↦ eqb (length code) 9 && every_char is_capital_or_digit code
  ]

  unfoldable pub is_unknown_code : Dict Text Text → Option Text → Bool
  is_unknown_code catalog value =
      let normalized = U.upper (or_empty (normalize_text value)) in
      non_empty normalized && not (contains (keys catalog) normalized)

  append_unknown_catalog_issue :
      List TenderQualityIssue → Option Text → Dict Text Text → Text → Text → List TenderQualityIssue
  unfolding report issue_of is_unknown_code
  append_unknown_catalog_issue issues value catalog code field =
      issues
      ++ report (is_unknown_code catalog value) (
          issue_of code warning
            (codes "Unknown source code for " ++ field ++ codes ": " ++ or_empty value ++ codes ".")
            field)

  code_issues : Tender → List TenderQualityIssue
  unfolding report_each report issue_of is_valid_cpv_code is_valid_nuts_code
  code_issues t =
      report (not (non_empty t.cpv_codes)) (
        issue_of (codes "missing_cpv") warning (codes "Tender has no CPV codes.")
          (codes "cpv_codes"))
      ++ report_each (λ cpv. not (is_valid_cpv_code cpv))
          (λ cpv.
            issue_of (codes "invalid_cpv") error (codes "Invalid CPV code: " ++ cpv ++ codes ".")
              (codes "cpv_codes"))
          t.cpv_codes
      ++ report_each (λ nuts. not (is_valid_nuts_code nuts))
          (λ nuts.
            issue_of (codes "invalid_nuts") warning
              (codes "Invalid NUTS code: " ++ nuts ++ codes ".") (codes "nuts_codes"))
          t.nuts_codes

  unfoldable pub wrong_tax_id : Option Text → Bool
  unfolding is_valid_spanish_tax_id
  wrong_tax_id value = given value && not (is_valid_spanish_tax_id value)

-- `estimated_value < 0` and `estimated_value > 50_000_000`, in hundredths
unfoldable pub negative_value : Tender → Bool
negative_value t = elim t.estimated_value [ none ↦ false | some v ↦ lt_ℤ v (pos 0) ]

unfoldable pub outlier_value : Tender → Bool
outlier_value t = elim t.estimated_value [ none ↦ false | some v ↦ lt_ℤ (pos 5000000000) v ]

unfoldable pub deadline_first : Tender → Bool
deadline_first t = elim t.published_at [
  | none ↦ false
  | some p ↦ elim t.deadline_at [ none ↦ false | some d ↦ ltb d.instant p.instant ]
]

-- `award_value > estimated_value * 1.25`
unfoldable pub award_exceeds : Tender → Bool
award_exceeds t = elim t.estimated_value [
  | none ↦ false
  | some v ↦ elim t.award_value [ none ↦ false | some a ↦ scaled_lt 5 v 4 a ]
]

unfoldable pub open_without_deadline : Tender → Bool
open_without_deadline t = t.status == open_ && (elim t.deadline_at [ none ↦ true | some _ ↦ false ])

module _ (U : Unicode) where
  value_issues : Tender → List TenderQualityIssue
  unfolding report issue_of
  value_issues t =
      report (wrong_tax_id U t.buyer_tax_id) (
        issue_of (codes "invalid_buyer_tax_id") warning
          (codes "Invalid buyer tax identifier: " ++ or_empty t.buyer_tax_id ++ codes ".")
          (codes "buyer_tax_id"))
      ++ report (negative_value t) (
          issue_of (codes "negative_estimated_value") error
            (codes "Estimated value cannot be negative.") (codes "estimated_value"))
      ++ report (outlier_value t) (
          issue_of (codes "estimated_value_outlier") warning
            (codes "Estimated value is unusually high.") (codes "estimated_value"))
      ++ report (deadline_first t) (
          issue_of (codes "deadline_before_publication") warning
            (codes "Deadline is earlier than publication date.") (codes "deadline_at"))
      ++ report (open_without_deadline t) (
          issue_of (codes "open_without_deadline") warning
            (codes "Open tender has no submission deadline.") (codes "deadline_at"))
      ++ report (award_exceeds t) (
          issue_of (codes "award_exceeds_estimate") warning
            (codes "Award value is materially higher than estimated value.") (codes "award_value"))
      ++ report (not (given t.buyer_name)) (
          issue_of (codes "missing_buyer") warning (codes "Tender has no buyer name.")
            (codes "buyer_name"))

  catalog_issues : Tender → List TenderQualityIssue → List TenderQualityIssue
  unfolding append_unknown_catalog_issue
  catalog_issues t issues =
      if t.source == placsp
      then append_unknown_catalog_issue U
          (append_unknown_catalog_issue U
            (append_unknown_catalog_issue U issues t.notice_type placsp_notice_types
              (codes "unknown_notice_type") (codes "notice_type"))
            t.contract_type placsp_contract_types (codes "unknown_contract_type")
            (codes "contract_type"))
          t.procedure_type placsp_procedure_types (codes "unknown_procedure_type")
          (codes "procedure_type")
      else issues

  unfoldable pub validate_tender : Tender → List TenderQualityIssue
  unfolding code_issues value_issues catalog_issues
  validate_tender t = catalog_issues t (code_issues U t ++ value_issues t)
