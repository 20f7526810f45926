-- ===== src/Sources/TedResponse/Tenders.antt =====
-- The tenders of a TED response.
use licitaciones_mcp.Base.{
  ◌≡◌, refl, ap, ◌∙◌, ℕ, true, Option, none, some, List, [], ◌∷◌, ◌++◌, map, All, arith, non_empty,
  contains, contains-append, eq_self, if◌then◌else◌, inl, inr, Bool-cases, list_eq, nat_eq,
}
use mathlib.Core.Path.{subst}
use licitaciones_mcp.Base.Result.{ok, >>=-eq-ok, ok-injective, some-injective, unguarded}
use licitaciones_mcp.Base.Text.{Text}
use licitaciones_mcp.Base.Unicode.{Unicode}
use licitaciones_mcp.Core.Dedupe.{attach_dedupe_key}
use licitaciones_mcp.Core.Json.{Json, Fields}
use licitaciones_mcp.Core.Models.{Tender, ted, or_empty}
use licitaciones_mcp.Core.Normalization.Codes.{IsCpv}
use licitaciones_mcp.Core.Normalization.CpvCodes.{normalize_cpv_codes_lem}
use licitaciones_mcp.Core.Parsing.{Readers}
use licitaciones_mcp.Core.Scoring.{given}
use licitaciones_mcp.Sources.TedNotice.{links, notice_url}
use licitaciones_mcp.Sources.TedResponse.{
  Amounts, notice_document, amounts, notice_id, notice_title, notice_tender, parse_notice,
  parse_notices, add_notice, extract_notices, parse_ted_search_response,
}

urls_of : (ls : List Text) → map (λ d. d.url) (map notice_document ls) ≡ ls
urls_of [] = refl
urls_of (l ∷ ls) = ap (λ rest. l ∷ rest) (urls_of ls)

contains-cons : (url : Text) → contains (url ∷ []) url ≡ true
unfolding contains
contains-cons url = ground (arith, eq_self url)

-- A link that the list lacks is added.
contains_added :
    (found : List Text) (url : Text)
    → contains (if contains found url then found else found ++ url ∷ []) url ≡ true
contains_added found url = elim (Bool-cases (contains found url)) [
  | inl e ↦ rw (e, e) refl
  | inr e ↦
      rw e (contains-append found (url ∷ []) url ∙ ground (arith, eq_self url, contains-cons url))
]

given-non_empty : (s : Option Text) → given s ≡ true → non_empty (or_empty s) ≡ true
given-non_empty none h = h
given-non_empty (some s) h = h

module _ (U : Unicode) where
  -- A tender of TED: it has an id, its CPV codes have eight digits, and one of its documents is the
  -- notice under that id.
  pub record IsTedTender (t : Tender) : Type 0 where
    pub of_ted : t.source ≡ ted
    pub has_id : non_empty t.external_id ≡ true
    pub cpvs : All (IsCpv U) t.cpv_codes
    pub linked : contains (map (λ d. d.url) t.documents) (notice_url t.external_id) ≡ true

  module _ (R : Readers) where
    contains-links :
        (notice : Fields) (id : Text) → contains (links R notice id) (notice_url id) ≡ true
    unfolding links
    contains-links notice id = contains_added _ (notice_url id)

    notice_tender-IsTedTender :
        (notice : Fields) (id title : Text) (a : Amounts)
        → non_empty id ≡ true
        → IsTedTender (notice_tender U R notice id title a)
    unfolding notice_tender
    notice_tender-IsTedTender notice id title a h = record {
      of_ted = refl;
      has_id = h;
      cpvs = (normalize_cpv_codes_lem U _).1;
      linked = rw (urls_of (links R notice id)) (contains-links notice id);
    }

    parse_notice-IsTedTender :
        (notice : Fields) (t : Tender) → parse_notice U R notice ≡ ok (some t) → IsTedTender t
    unfolding parse_notice
    parse_notice-IsTedTender notice t e =
        let (filled, chain) = unguarded _ _ e in
        let (a, read, made) = >>=-eq-ok (amounts U R notice) _ chain in
        subst IsTedTender (some-injective (ok-injective made)) (
          notice_tender-IsTedTender notice (or_empty (notice_id notice))
            (or_empty (notice_title notice)) a (given-non_empty (notice_id notice) (ground arith)))

    module _ (sha256 : Text → Text) (iso_date : ℕ → Text) where
      attach_dedupe_key-IsTedTender :
          (t : Tender) → IsTedTender t → IsTedTender (attach_dedupe_key U sha256 iso_date t)
      unfolding attach_dedupe_key
      attach_dedupe_key-IsTedTender t h = record {
        of_ted = h.of_ted;
        has_id = h.has_id;
        cpvs = h.cpvs;
        linked = h.linked;
      }

      add_notice-IsTedTender :
          (o : Option Tender) (ts : List Tender)
          → ((t : Tender) → o ≡ some t → IsTedTender t)
          → All IsTedTender ts
          → All IsTedTender (add_notice U R sha256 iso_date o ts)
      unfolding attach_dedupe_key
      add_notice-IsTedTender none ts h k = k
      add_notice-IsTedTender (some t) ts h k = (attach_dedupe_key-IsTedTender t (h t refl), k)

      parse_notices-IsTedTender :
          (ns : List Fields) (ts : List Tender)
          → parse_notices U R sha256 iso_date ns ≡ ok ts
          → All IsTedTender ts
      unfolding parse_notices
      parse_notices-IsTedTender [] ts e = subst (All IsTedTender) (ok-injective e) tt
      parse_notices-IsTedTender (n ∷ ns) ts e =
          let (o, first, rest) = >>=-eq-ok (parse_notice U R n) _ e in
          let (us, later, made) = >>=-eq-ok (parse_notices U R sha256 iso_date ns) _ rest in
          subst (All IsTedTender) (ok-injective made) (
            add_notice-IsTedTender o us (λ t p. parse_notice-IsTedTender n t (first ∙ ap ok p))
              (parse_notices-IsTedTender ns us later))

      -- Each tender of a response that is parsed is a tender of TED with an id, its CPV codes have
      -- eight digits, and one of its documents is the notice under that id.
      pub parse_ted_search_response-IsTedTender :
          (payload : Json) (ts : List Tender)
          → parse_ted_search_response U R sha256 iso_date payload ≡ ok ts
          → All IsTedTender ts
      unfolding parse_ted_search_response
      parse_ted_search_response-IsTedTender payload ts e =
          let (ns, found, parsed) = >>=-eq-ok (extract_notices U R payload) _ e in
          parse_notices-IsTedTender ns ts parsed
