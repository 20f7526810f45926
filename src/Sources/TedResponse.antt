-- ===== src/Sources/TedResponse.antt =====
-- sources/ted.py: one notice as a tender, and the tenders of a response.
pub mod Tenders
use licitaciones_mcp.Base.{
  ℕ, Bool, true, false, not, ◌||◌, Option, none, some, List, [], ◌∷◌, ◌++◌, map, non_empty,
  if◌then◌else◌, nat_eq, list_eq,
}
use licitaciones_mcp.Base.Int.{ℤ}
use licitaciones_mcp.Base.Result.{Result, ok, raised, ◌>>=◌}
use licitaciones_mcp.Base.Text.{Text, codes}
use licitaciones_mcp.Base.Unicode.{Unicode}
use licitaciones_mcp.Core.Countries.{country_or_xx}
use licitaciones_mcp.Core.Dedupe.{attach_dedupe_key}
use licitaciones_mcp.Core.Json.{Json, Items, Fields, null, array, object, nil, cons, get}
use licitaciones_mcp.Core.Models.{Tender, TenderDocument, bare_tender, ted, DateTime, or_empty}
use licitaciones_mcp.Core.Normalization.{
  normalize_text, normalize_cpv_codes, normalize_status, normalize_region, listed, or_else,
}
use licitaciones_mcp.Core.Parsing.{Readers}
use licitaciones_mcp.Core.Scoring.{given}
use licitaciones_mcp.Sources.TedNotice.{
  NoticeError, attribute_error, first_value, scalar, as_list, links, fields_text, json_money,
  json_datetime,
}

-- The values of a notice that may raise.
pub record Amounts : Type 0 where
  pub estimated_value : Option ℤ
  pub award_value : Option ℤ
  pub published_at : Option DateTime
  pub deadline_at : Option DateTime

abbrev of_keys : Fields → List Text → Option Text
of_keys notice keys = scalar (first_value notice keys)

abbrev head_link : List Text → Option Text
head_link [] = none
head_link (l ∷ _) = some l

abbrev pub notice_document : Text → TenderDocument
notice_document link = record {
  url = link;
  title = some (codes "TED notice");
  document_type = none;
  published_at = none;
  metadata = Fields.end;
}

unfoldable pub notice_id : Fields → Option Text
unfolding scalar first_value
notice_id notice =
    of_keys notice
      (codes "publication-number" ∷ codes "publicationNumber" ∷ codes "noticeId" ∷ codes "id" ∷ [])

unfoldable pub notice_title : Fields → Option Text
unfolding scalar first_value
notice_title notice = of_keys notice (codes "notice-title" ∷ codes "title" ∷ codes "name" ∷ [])

module _ (U : Unicode) (R : Readers) where
  amounts : Fields → Result NoticeError Amounts
  unfolding json_money json_datetime
  amounts notice =
      json_money R (first_value notice (codes "estimated-value" ∷ codes "estimatedValue" ∷ []))
      >>= (λ estimated.
          json_money R (
            first_value notice
              (codes "tender-value" ∷ codes "total-value" ∷ codes "award-value" ∷ []))
          >>= (λ award.
              json_datetime R
                (first_value notice (codes "publication-date" ∷ codes "publicationDate" ∷ []))
              >>= (λ published.
                  json_datetime R (
                    first_value notice (
                      codes "deadline"
                      ∷ codes "deadline-receipt-tenders"
                      ∷ codes "deadlineDate"
                      ∷ []))
                  >>= (λ deadline. ok (record {
                    estimated_value = estimated;
                    award_value = award;
                    published_at = published;
                    deadline_at = deadline;
                  })))))

  unfoldable pub notice_tender : Fields → Text → Text → Amounts → Tender
  unfolding scalar first_value as_list links fields_text
  notice_tender notice external_id title a =
      let found = links R notice external_id in
      let notice_type = of_keys notice (codes "notice-type" ∷ codes "status" ∷ []) in
      record (bare_tender ted external_id
        (or_empty (or_else (normalize_text (some title)) (some title)))) {
          summary = normalize_text (of_keys notice (codes "description" ∷ codes "summary" ∷ []));
          buyer_name =
              normalize_text (of_keys notice (codes "buyer-name" ∷ codes "buyerName" ∷ []));
          buyer_tax_id =
              normalize_text
                (of_keys notice (codes "buyer-identifier" ∷ codes "buyerIdentifier" ∷ []));
          status = normalize_status U notice_type;
          cpv_codes = normalize_cpv_codes U (
              listed
                (as_list (first_value notice (codes "classification-cpv" ∷ codes "cpv" ∷ []))));
          nuts_codes = as_list (first_value notice (codes "place-of-performance" ∷ []));
          region =
              normalize_region U
                (of_keys notice (codes "place-of-performance" ∷ codes "region" ∷ []));
          country =
              country_or_xx U (
                of_keys notice (codes "buyer-country" ∷ codes "place-of-performance-country" ∷ []));
          procedure_type =
              normalize_text (of_keys notice (codes "procedure-type" ∷ codes "procedureType" ∷ []));
          contract_type =
              normalize_text
                (of_keys notice (codes "contract-nature" ∷ codes "contractNature" ∷ []));
          notice_type = notice_type;
          estimated_value = a.estimated_value;
          award_value = a.award_value;
          published_at = a.published_at;
          deadline_at = a.deadline_at;
          winner_name =
              normalize_text (of_keys notice (codes "winner-name" ∷ codes "winnerName" ∷ []));
          winner_tax_id =
              normalize_text
                (of_keys notice (codes "winner-identifier" ∷ codes "winnerIdentifier" ∷ []));
          url = head_link found;
          documents = map notice_document found;
          raw = object notice;
          source_metadata =
              (codes "api", codes "ted-search-v3") ∷ (codes "fields", fields_text) ∷ [];
        }

  -- `_parse_notice`: `none` without an id or a title.
  unfoldable pub parse_notice : Fields → Result NoticeError (Option Tender)
  unfolding amounts notice_tender notice_id notice_title
  parse_notice notice =
      let external_id = notice_id notice in
      let title = notice_title notice in
      if not (given external_id) || not (given title)
      then ok none
      else amounts notice
        >>= (λ a. ok (some (notice_tender notice (or_empty external_id) (or_empty title) a)))

  -- The items of a list that are objects.
  objects : Items → List Fields
  objects nil = []
  objects (cons (object fs) vs) = fs ∷ objects vs
  objects (cons _ vs) = objects vs

  notices_under : Fields → List Text → List Fields
  unfolding objects
  notices_under payload [] = []
  notices_under payload (key ∷ keys) =
      let rest = notices_under payload keys in
      elim (get key payload) [ some (array vs) ↦ objects vs | _ ↦ rest ]

  unfoldable pub extract_notices : Json → Result NoticeError (List Fields)
  unfolding notices_under
  extract_notices (object payload) =
      ok (notices_under payload (codes "notices" ∷ codes "results" ∷ codes "data" ∷ []))
  extract_notices _ = raised attribute_error

  module _ (sha256 : Text → Text) (iso_date : ℕ → Text) where
    abbrev add_notice : Option Tender → List Tender → List Tender
    add_notice none ts = ts
    add_notice (some t) ts = attach_dedupe_key U sha256 iso_date t ∷ ts

    parse_notices : List Fields → Result NoticeError (List Tender)
    unfolding parse_notice attach_dedupe_key
    parse_notices [] = ok []
    parse_notices (n ∷ ns) =
        let rest = parse_notices ns in
        parse_notice n >>= (λ t. rest >>= (λ ts. ok (add_notice t ts)))

    unfoldable pub parse_ted_search_response : Json → Result NoticeError (List Tender)
    unfolding parse_notices extract_notices
    parse_ted_search_response payload = extract_notices payload >>= parse_notices
