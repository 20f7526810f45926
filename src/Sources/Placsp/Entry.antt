-- ===== src/Sources/Placsp/Entry.antt =====
-- `_parse_entry` of sources/placsp.py: one Atom entry as a tender.
use licitaciones_mcp.Base.{
  not, ◌||◌, Option, none, some, List, [], ◌∷◌, ◌++◌, map, keep, non_empty, if◌then◌else◌, list_eq,
  nat_eq,
}
use licitaciones_mcp.Base.Dict.{Dict}
use licitaciones_mcp.Base.Int.{ℤ}
use licitaciones_mcp.Base.Result.{Result, ok, raised, ◌>>=◌}
use licitaciones_mcp.Base.Text.{Text, codes, join}
use licitaciones_mcp.Base.Unicode.{Unicode}
use licitaciones_mcp.Core.Json.{Json, Fields, number, text, object, fields_of}
use licitaciones_mcp.Core.Models.{Tender, TenderDocument, bare_tender, placsp, DateTime, or_empty}
use licitaciones_mcp.Core.Normalization.{
  normalize_text, normalize_status, normalize_region, or_else, or_none, every,
}
use licitaciones_mcp.Core.Parsing.{Readers, or_moment, parse_datetime, parse_money}
use licitaciones_mcp.Core.Scoring.{given}
use licitaciones_mcp.Sources.Placsp.{
  Xml, atom_text, find_first, first_text, extract_texts, entry_links, extract_cpvs,
  extract_party_identifier, extract_currency, extract_deadline, moment, add_new,
}
use licitaciones_mcp.Sources.Placsp.Notice.{normalize_placsp_notice_type}

-- `f"{value:.2f}"`, and `str(int(digits))` for decimal digits
pub record Formats : Type 0 where
  pub amount : ℤ → Text
  pub int_text : Text → Text

abbrev money : Readers → Option Text → Option ℤ
money R none = none
money R (some s) = parse_money R s

-- `value or default` on texts
abbrev or_text : Option Text → Option Text → Option Text
or_text value other = if given value then value else other

part : Text → Option Text → List Text
part label value = if given value then (label ++ or_empty value) ∷ [] else []

amount_part : Formats → Option ℤ → Text → List Text
amount_part F none currency = []
amount_part F (some value) currency =
    (codes "Importe: " ++ F.amount value ++ codes " " ++ currency) ∷ []

-- `dict.fromkeys(parts)`
distinct_from : List Text → List Text → List Text
distinct_from kept [] = kept
distinct_from kept (p ∷ ps) = distinct_from (add_new kept p) ps

-- `_compose_summary`
unfoldable pub compose_summary :
    Formats
    → Option Text
    → Option Text
    → Option Text
    → Option ℤ
    → Option Text
    → Option Text
    → Option Text
    → Option Text
    → Text
    → Option Text
unfolding part amount_part distinct_from
compose_summary F atom_summary folder buyer value status procedure contract region currency =
    or_none (
      join (codes "; ") (
        distinct_from [] (
          part [] atom_summary
          ++ part (codes "Id licitación: ") folder
          ++ part (codes "Órgano de Contratación: ") buyer
          ++ amount_part F value currency
          ++ part (codes "Estado: ") status
          ++ part (codes "Procedimiento: ") procedure
          ++ part (codes "Tipo de contrato: ") contract
          ++ part (codes "Ubicación: ") region)))

-- An entry of `raw` that is not `None`.
raw_entry : Text → Option Text → List (Text × Json)
raw_entry key none = []
raw_entry key (some s) = (key, text s) ∷ []

raw_number : Text → Option Text → List (Text × Json)
raw_number key none = []
raw_number key (some s) = (key, number s) ∷ []

abbrev notice_link : Text → TenderDocument
notice_link link = record {
  url = link;
  title = some (codes "PLACSP link");
  document_type = none;
  published_at = none;
  metadata = Fields.end;
}

abbrev head_of : List Text → Option Text
head_of [] = none
head_of (l ∷ _) = some l

module _ {Node : Type 0} (X : Xml Node) (U : Unicode) (R : Readers) (F : Formats) where
  -- `_parse_integer`: `int` raises on a digit that is not decimal.
  unfoldable pub parse_integer : Option Text → Result Text (Option Text)
  unfolding every
  parse_integer value =
      let digits = keep U.is_digit (or_empty (normalize_text value)) in
      if not (non_empty digits)
      then ok none
      else if every U.is_decimal digits
      then ok (some (F.int_text digits))
      else raised (codes "invalid literal for int() with base 10")

  abbrev or_node : Option Node → Option Node → Option Node
  or_node (some e) other = some e
  or_node none other = other

  -- `tender_result if tender_result is not None else entry`
  abbrev node_or : Option Node → Node → Option Node
  node_or none entry = some entry
  node_or found entry = found

  published : Node → Option DateTime
  unfolding first_text atom_text
  published entry =
      or_moment
        (parse_datetime R (
          moment (
            first_text X (some entry) (
              codes ".//cac:AdditionalPublicationDocumentReference/cbc:IssueDate"
              ∷ codes ".//cbc:IssueDate"
              ∷ []))))
        (or_moment (parse_datetime R (moment (atom_text X entry (codes "atom:published"))))
          (parse_datetime R (moment (atom_text X entry (codes "atom:updated")))))

  project_region : Option Node → Option Text
  unfolding first_text
  project_region project =
      first_text X project (
        codes ".//cac:RealizedLocation/cbc:CountrySubentity" ∷ codes ".//cbc:CountrySubentity" ∷ [])

  buyer_city : Option Node → Option Text
  unfolding first_text
  buyer_city party =
      first_text X party (codes ".//cac:PostalAddress/cbc:CityName" ∷ codes ".//cbc:CityName" ∷ [])

  project_nuts : Option Node → List Text
  unfolding extract_texts
  project_nuts project =
      let values =
        extract_texts X project (codes ".//cac:RealizedLocation/cbc:CountrySubentityCode") in
      if non_empty values
      then values
      else extract_texts X project (codes ".//cbc:CountrySubentityCode")

  -- The tender of an entry that has a title and an id; `quantity` is the received quantity.
  unfoldable pub entry_tender : Node → Text → Text → Option Text → Dict Text Text → Tender
  unfolding atom_text find_first first_text extract_texts entry_links extract_cpvs
      extract_party_identifier extract_currency extract_deadline published project_region buyer_city
      project_nuts compose_summary raw_entry raw_number normalize_placsp_notice_type
  entry_tender entry title external_id quantity source_metadata =
      let links = entry_links X entry in
      let folder = first_text X (some entry) (codes ".//cbc:ContractFolderID" ∷ []) in
      let project = find_first X (some entry) (codes ".//cac:ProcurementProject") in
      let party =
        or_node (find_first X (some entry) (codes ".//cac:ContractingParty"))
          (find_first X (some entry) (codes ".//cac:LocatedContractingParty")) in
      let process = find_first X (some entry) (codes ".//cac:TenderingProcess") in
      let terms = find_first X (some entry) (codes ".//cac:TenderingTerms") in
      let award = find_first X (some entry) (codes ".//cac:TenderResult") in
      let buyer = normalize_text (
        first_text X party (
          codes ".//cbc:Name" ∷ codes ".//cbc:PartyName" ∷ codes ".//cbc:RegistrationName" ∷ [])) in
      let status_text =
        first_text X (some entry)
          (codes ".//cbc:ContractFolderStatusCode" ∷ codes ".//cbc:StatusCode" ∷ []) in
      let value = money R (
        first_text X project (
          codes ".//cbc:EstimatedOverallContractAmount"
          ∷ codes ".//cbc:TotalAmount"
          ∷ codes ".//cbc:TaxExclusiveAmount"
          ∷ [])) in
      let region = normalize_region U (or_text (project_region project) (buyer_city party)) in
      let nuts = project_nuts project in
      let procedure = normalize_text (first_text X process (codes ".//cbc:ProcedureCode" ∷ [])) in
      let contract = normalize_text (first_text X project (codes ".//cbc:TypeCode" ∷ [])) in
      let currency = or_else (extract_currency X U (project ∷ award ∷ [])) (some (codes "EUR")) in
      record (bare_tender placsp (or_empty (or_text folder (some external_id))) title) {
        summary =
            compose_summary F (normalize_text (atom_text X entry (codes "atom:summary"))) folder
              buyer value status_text procedure contract region (or_empty currency);
        buyer_name = buyer;
        buyer_tax_id = extract_party_identifier X U party;
        status = normalize_status U status_text;
        cpv_codes = extract_cpvs X U project;
        nuts_codes =
            if non_empty nuts
            then nuts
            else extract_texts X (some entry) (codes ".//cbc:CountrySubentityCode");
        region = region;
        procedure_type = procedure;
        contract_type = contract;
        notice_type = normalize_placsp_notice_type U status_text;
        estimated_value = value;
        award_value = money R (
            first_text X (node_or award entry) (
              codes ".//cac:AwardedTenderedProject/cac:LegalMonetaryTotal/cbc:TaxExclusiveAmount"
              ∷ codes ".//cbc:PayableAmount"
              ∷ codes ".//cbc:AwardedTenderedProjectAmount"
              ∷ []));
        currency = currency;
        published_at = published entry;
        deadline_at = extract_deadline X R process;
        awarded_at = parse_datetime R (moment (first_text X award (codes ".//cbc:AwardDate" ∷ [])));
        winner_name = normalize_text (
            first_text X award (
              codes ".//cac:WinningParty/cac:PartyName/cbc:Name"
              ∷ codes ".//cac:WinningParty/cac:PartyLegalEntity/cbc:RegistrationName"
              ∷ []));
        winner_tax_id =
            extract_party_identifier X U (find_first X award (codes ".//cac:WinningParty"));
        url = head_of links;
        documents = map notice_link links;
        raw = object (
            fields_of (
              raw_entry (codes "atom_id") (some external_id)
              ++ raw_entry (codes "status_code") status_text
              ++ raw_entry (codes "procedure_code") procedure
              ++ raw_entry (codes "contract_type_code") contract
              ++ raw_entry (codes "funding_program_code")
                  (normalize_text (first_text X terms (codes ".//cbc:FundingProgramCode" ∷ [])))
              ++ raw_entry (codes "urgency_code")
                  (normalize_text (first_text X process (codes ".//cbc:UrgencyCode" ∷ [])))
              ++ raw_number (codes "received_tender_quantity") quantity));
        source_metadata = source_metadata;
      }

  -- `received_tender_quantity` of `raw`
  pub quantity_of : Node → Result Text (Option Text)
  unfolding parse_integer find_first first_text
  quantity_of entry =
      let award = find_first X (some entry) (codes ".//cac:TenderResult") in
      parse_integer (first_text X award (codes ".//cbc:ReceivedTenderQuantity" ∷ []))

  unfoldable pub parse_entry : Node → Dict Text Text → Result Text (Option Tender)
  unfolding entry_tender quantity_of atom_text
  parse_entry entry source_metadata =
      let title = normalize_text (atom_text X entry (codes "atom:title")) in
      let external_id = normalize_text (atom_text X entry (codes "atom:id")) in
      if not (given title) || not (given external_id)
      then ok none
      else quantity_of entry >>= (λ quantity. ok (
          some
            (entry_tender entry (or_empty title) (or_empty external_id) quantity source_metadata)))
