-- ===== src/Ocds/Release.antt =====
-- `tender_to_release` of ocds/mapper.py and `build_release_package` of ocds/package.py, as JSON.
pub mod Parties
use licitaciones_mcp.Base.{
  ℕ, zero, suc, Bool, true, false, not, ◌&&◌, ◌||◌, Option, none, some, List, [], ◌∷◌, ◌++◌, map,
  take, any, non_empty, if◌then◌else◌, ◌==◌, list_eq, nat_eq,
}
use licitaciones_mcp.Base.Int.{ℤ}
use licitaciones_mcp.Base.Result.{Result, ok, raised}
use licitaciones_mcp.Base.Text.{Text, codes, occurs_in}
use licitaciones_mcp.Base.Unicode.{Unicode}
use licitaciones_mcp.Core.Countries.{CountryError, normalize_country_code}
use licitaciones_mcp.Core.Json.{Json, Fields, number, text, array, object, fields_of, items_of}
use licitaciones_mcp.Core.Models.{
  Tender, TenderDocument, TenderStatus, planned, open_, closed, awarded, cancelled, unknown,
  DateTime, or_empty, source_value, source_id, status_eq,
}
use licitaciones_mcp.Core.Normalization.{fold_text}
use licitaciones_mcp.Core.Scoring.{given}
use licitaciones_mcp.Sources.Period.{str}

-- `_TENDER_STATUS_MAP`
unfoldable pub ocds_status : TenderStatus → Text
ocds_status planned = codes "planned"
ocds_status open_ = codes "active"
ocds_status closed = codes "complete"
ocds_status awarded = codes "complete"
ocds_status cancelled = codes "cancelled"
ocds_status unknown = codes "planned"

abbrev pub Entries : Type 0
Entries = List (Text × Json)

-- An `if` that sets a key.
abbrev pub set_if : Bool → Text → Json → Entries
set_if test key value = if test then (key, value) ∷ [] else []

-- The keys that one statement after the other sets.
abbrev pub steps : List Entries → Entries
steps [] = []
steps (e ∷ es) = e ++ steps es

abbrev pub object_of : Entries → Json
object_of entries = object (fields_of entries)

abbrev pub array_of : List Json → Json
array_of values = array (items_of values)

-- `value or default`
abbrev pub or_default : Option Text → Text → Text
or_default value other = if given value then or_empty value else other

-- What the mapping takes from Python: the digest in hexadecimal, `isoformat`, and an amount as JSON.
pub record Export : Type 0 where
  pub sha256 : Text → Text
  pub isoformat : DateTime → Text
  pub amount : ℤ → Text
  -- `datetime.now(UTC).isoformat()`
  pub now : Text

abbrev moment_text : Export → Option DateTime → Text → Text
moment_text X none other = other
moment_text X (some d) other = X.isoformat d

abbrev pub is_some {ℓ} : {A : Type ℓ} → Option A → Bool
is_some none = false
is_some (some _) = true

item_entries : ℕ → List Text → List Json
unfolding str
item_entries index [] = []
item_entries index (cpv ∷ cpvs) =
    object_of (
      (codes "id", text (str (suc index)))
      ∷ (
        codes "classification",
        object_of ((codes "scheme", text (codes "CPV")) ∷ (codes "id", text cpv) ∷ []),
      )
      ∷ [])
    ∷ item_entries (suc index) cpvs

-- `_value`, and the value of an award
value_entry : Export → ℤ → Option Text → Json
value_entry X amount currency = object_of (
    (codes "amount", number (X.amount amount))
    ∷ (codes "currency", text (or_default currency (codes "EUR")))
    ∷ [])

set_value : Export → Option ℤ → Option Text → Entries
unfolding value_entry
set_value X none currency = []
set_value X (some amount) currency = (codes "value", value_entry X amount currency) ∷ []

-- `_documents`
document_entries : Export → ℕ → List TenderDocument → List Json
unfolding str
document_entries X index [] = []
document_entries X index (d ∷ ds) =
    object_of (
      (codes "id", text (str (suc index)))
        ∷ (codes "url", text d.url)
        ∷ set_if (given d.title) (codes "title") (text (or_empty d.title))
      ++ set_if (given d.document_type) (codes "documentType") (text (or_empty d.document_type))
      ++ set_if (is_some d.published_at) (codes "datePublished")
          (text (moment_text X d.published_at [])))
    ∷ document_entries X (suc index) ds

-- The documents, and the notice after them.
all_documents : Export → Tender → List Json
unfolding document_entries
all_documents X t =
    document_entries X 0 t.documents
    ++ (if given t.url
        then object_of (
            (codes "id", text (codes "notice"))
            ∷ (codes "url", text (or_empty t.url))
            ∷ (codes "documentType", text (codes "notice"))
            ∷ [])
          ∷ []
        else [])

module _ (U : Unicode) (X : Export) where
  ocid : Tender → Text → Text
  ocid t prefix =
      prefix ++ codes "-" ++ source_value t.source ++ codes "-" ++ take 16 (X.sha256 (source_id t))

  -- `_vat_scheme`
  vat_scheme : Text → Option Text
  vat_scheme country = elim (normalize_country_code U (some country)) [
    | raised _ ↦ none
    | ok none ↦ none
    | ok (some code) ↦ if code == codes "XX" then none else some (code ++ codes "-VAT")
  ]

  pub party_id : Tender → Text
  party_id t = or_default t.buyer_tax_id (codes "buyer-" ++ source_value t.source)

  identifier : Tender → Json
  unfolding vat_scheme
  identifier t = object_of (
      (codes "id", text (or_empty t.buyer_tax_id))
      ∷ set_if (given (vat_scheme t.country)) (codes "scheme")
          (text (or_empty (vat_scheme t.country))))

  address : Tender → Entries
  address t =
      set_if (given t.region) (codes "region") (text (or_empty t.region))
      ++ set_if (non_empty t.country) (codes "countryName") (text t.country)

  -- Whether `_party` gives a party, and that party.
  pub has_party : Tender → Bool
  has_party t = given t.buyer_name || given t.buyer_tax_id

  pub party : Tender → Fields
  unfolding party_id identifier address
  party t = fields_of (
      steps (
        ((codes "id", text (party_id t)) ∷ [])
        ∷ set_if (given t.buyer_name) (codes "name") (text (or_empty t.buyer_name))
        ∷ ((codes "roles", array_of (text (codes "buyer") ∷ [])) ∷ [])
        ∷ set_if (given t.buyer_tax_id) (codes "identifier") (identifier t)
        ∷ set_if (non_empty (address t)) (codes "address") (object_of (address t))
        ∷ []))

  main_procurement_category : Option Text → Option Text
  main_procurement_category value =
      let folded = fold_text U value in
      if not (non_empty folded)
      then none
      else if any (λ term. occurs_in term folded) (codes "servicio" ∷ codes "service" ∷ [])
      then some (codes "services")
      else if any (λ term. occurs_in term folded)
          (codes "suministro" ∷ codes "supply" ∷ codes "supplies" ∷ codes "goods" ∷ [])
      then some (codes "goods")
      else if any (λ term. occurs_in term folded)
          (codes "obra" ∷ codes "works" ∷ codes "construction" ∷ [])
      then some (codes "works")
      else none

  unfoldable pub tender_block : Tender → Entries
  unfolding has_party party_id main_procurement_category item_entries set_value all_documents
      ocds_status
  tender_block t =
      let category = main_procurement_category t.contract_type in
      steps (
        ((codes "id", text t.external_id)
          ∷ (codes "title", text t.title)
          ∷ (codes "status", text (ocds_status t.status))
          ∷ [])
        ∷ set_if (given t.summary) (codes "description") (text (or_empty t.summary))
        ∷ set_if (given t.procedure_type) (codes "procurementMethodDetails")
            (text (or_empty t.procedure_type))
        ∷ set_if (given category) (codes "mainProcurementCategory") (text (or_empty category))
        ∷ set_value X t.estimated_value t.currency
        ∷ set_if (non_empty t.cpv_codes) (codes "items") (array_of (item_entries 0 t.cpv_codes))
        ∷ set_if (is_some t.deadline_at) (codes "tenderPeriod")
            (object_of ((codes "endDate", text (moment_text X t.deadline_at [])) ∷ []))
        ∷ set_if (has_party t) (codes "procuringEntity")
            (object_of ((codes "id", text (party_id t)) ∷ []))
        ∷ set_if (non_empty (all_documents X t)) (codes "documents") (array_of (all_documents X t))
        ∷ [])

  award : Tender → Json
  unfolding set_value
  award t = object_of (
      (codes "id", text (codes "award-" ++ t.external_id))
        ∷ (codes "title", text t.title)
        ∷ (codes "status", text (codes "active"))
        ∷ (
          codes "suppliers",
          array_of (
              object_of (
                (codes "id", text (or_default t.winner_tax_id (codes "supplier-1")))
                ∷ (codes "name", text (or_empty t.winner_name))
                ∷ [])
              ∷ []),
        )
        ∷ set_value X t.award_value t.currency
      ++ set_if (is_some t.awarded_at) (codes "date") (text (moment_text X t.awarded_at [])))

  unfoldable pub tender_to_release : Tender → Text → Fields
  unfolding ocid has_party party party_id tender_block award
  tender_to_release t prefix = fields_of (
      steps (
        ((codes "ocid", text (ocid t prefix))
          ∷ (codes "id", text (source_value t.source ++ codes "-" ++ t.external_id))
          ∷ (codes "date", text (moment_text X t.published_at X.now))
          ∷ (codes "tag", array_of (text (codes "tender") ∷ []))
          ∷ (codes "initiationType", text (codes "tender"))
          ∷ (codes "language", text (codes "es"))
          ∷ [])
        ∷ set_if (has_party t) (codes "parties") (array_of (object (party t) ∷ []))
        ∷ set_if (has_party t) (codes "buyer") (
            object_of
              ((codes "id", text (party_id t)) ∷ (codes "name", text (or_empty t.buyer_name)) ∷ []))
        ∷ ((codes "tender", object_of (tender_block t)) ∷ [])
        ∷ set_if (t.status == awarded && given t.winner_name) (codes "awards")
            (array_of (award t ∷ []))
        ∷ []))

-- The arguments of `build_release_package`.
pub record Publisher : Type 0 where
  pub name : Text
  pub uri : Text
  pub publication_policy : Text
  pub license_url : Text
  pub ocds_version : Text
  pub package_uri : Option Text

unfoldable pub build_release_package : Export → Publisher → List Fields → Fields
build_release_package X p releases = fields_of (
    (codes "uri", text (or_default p.package_uri (codes "urn:licitaciones-mcp:release-package")))
    ∷ (codes "version", text p.ocds_version)
    ∷ (codes "publishedDate", text X.now)
    ∷ (codes "publisher", object_of ((codes "name", text p.name) ∷ (codes "uri", text p.uri) ∷ []))
    ∷ (codes "license", text p.license_url)
    ∷ (codes "publicationPolicy", text p.publication_policy)
    ∷ (codes "releases", array_of (map (λ r. object r) releases))
    ∷ [])
