-- ===== src/Sources/Placsp/Feed.antt =====
-- sources/placsp.py: the tenders of an Atom feed, of a ZIP archive of feeds, and of a request.
pub mod Tenders
use licitaciones_mcp.Base.{
  ℕ, Bool, true, false, not, ◌&&◌, ◌||◌, Option, none, some, List, [], ◌∷◌, ◌++◌, length, take,
  keep, leb, non_empty, if◌then◌else◌, ◌==◌, list_eq, nat_eq, option_eq,
}
use mathlib.Core.List.{reverse}
use licitaciones_mcp.Base.Dict.{Dict, insert}
use licitaciones_mcp.Base.Result.{Result, ok, raised, ◌>>=◌}
use licitaciones_mcp.Base.Text.{Text, codes, starts_with}
use licitaciones_mcp.Base.Unicode.{Unicode}
use licitaciones_mcp.Core.Dedupe.{attach_dedupe_key}
use licitaciones_mcp.Core.Models.{Tender, TenderFilters, or_empty}
use licitaciones_mcp.Core.Parsing.{Readers}
use licitaciones_mcp.Core.Scoring.{given, tender_matches_filters}
use licitaciones_mcp.Jobs.Ingest.{SourceFetchResult}
use licitaciones_mcp.Sources.Period.{
  PlacspDatasetKind, licitaciones, kind_value, str, error_text, build_placsp_period_url,
}
use licitaciones_mcp.Sources.Placsp.{Xml, local_name}
use licitaciones_mcp.Sources.Placsp.Entry.{Formats, parse_entry}

-- `name.endswith(suffix)`
ends_with : Text → Text → Bool
ends_with name suffix = starts_with (reverse name) (reverse suffix)

-- A member of an archive: its name, and its bytes decoded.
abbrev pub Member : Type 0
Member = Text × Text

-- What the feeds need of the libraries: the reader of XML, that of archives, and the service, which
-- gives the text of a feed, or the archive of a period as its members.
pub record PlacspService (Node : Type 0) : Type 0 where
  pub fromstring : Text → Result Text Node
  pub get_feed : Text → Result Text Text
  pub get_archive : Text → Result Text (List Member)

abbrev optional_number : Option ℕ → Text → Text
unfolding str
optional_number none other = other
optional_number (some n) other = str n

module _ {Node : Type 0} (X : Xml Node) (U : Unicode) (R : Readers) (F : Formats)
    (sha256 : Text → Text) (iso_date : ℕ → Text) (service : PlacspService Node) where
  abbrev add_tender : Option Tender → List Tender → List Tender
  add_tender none ts = ts
  add_tender (some t) ts = attach_dedupe_key U sha256 iso_date t ∷ ts

  parse_entries : Dict Text Text → List Node → Result Text (List Tender)
  unfolding parse_entry attach_dedupe_key
  parse_entries source_metadata [] = ok []
  parse_entries source_metadata (e ∷ es) =
      let rest = parse_entries source_metadata es in
      parse_entry X U R F e source_metadata >>= (λ t. rest >>= (λ ts. ok (add_tender t ts)))

  -- The entries below the root, or the root if it is an entry itself.
  entries_of : Node → List Node
  entries_of root =
      let entries = X.findall_atom (codes "atom:entry") root in
      if not (non_empty entries) && local_name (X.tag root) == codes "entry"
      then root ∷ []
      else entries

  unfoldable pub parse_placsp_atom : Text → Dict Text Text → Result Text (List Tender)
  unfolding parse_entries entries_of
  parse_placsp_atom xml_text source_metadata =
      service.fromstring xml_text >>= (λ root. parse_entries source_metadata (entries_of root))

  pub is_feed_name : Text → Bool
  unfolding ends_with
  is_feed_name name =
      not (ends_with name (codes "/"))
      && (ends_with (U.lower name) (codes ".xml") || ends_with (U.lower name) (codes ".atom"))

  reached : Option ℕ → List Tender → Bool
  reached none tenders = false
  reached (some limit) tenders = leb limit (length tenders)

  cut : Option ℕ → List Tender → List Tender
  cut none tenders = tenders
  cut (some limit) tenders = take limit tenders

  -- The loop over the members: it ends as soon as the limit is reached.
  parse_members : Dict Text Text → Option ℕ → List Tender → List Member → Result Text (List Tender)
  unfolding parse_placsp_atom reached cut
  parse_members source_metadata limit tenders [] = ok tenders
  parse_members source_metadata limit tenders ((name, xml_text) ∷ members) =
      elim (parse_placsp_atom xml_text (insert (codes "zip_member") name source_metadata)) [
        | raised e ↦ raised e
        | ok found ↦ elim (reached limit (tenders ++ found)) [
          | true ↦ ok (cut limit (tenders ++ found))
          | false ↦ parse_members source_metadata limit (tenders ++ found) members
        ]
      ]

  unfoldable pub parse_placsp_zip :
      List Member → Dict Text Text → Option ℕ → Result Text (List Tender)
  unfolding parse_members is_feed_name
  parse_placsp_zip members source_metadata limit =
      parse_members source_metadata limit [] (keep (λ (name, _). is_feed_name name) members)

  -- `PLACSPClient.fetch`
  unfoldable pub fetch_feed : Option Text → TenderFilters → Result Text SourceFetchResult
  fetch_feed feed_url f =
      if not (given feed_url)
      then ok (record { tenders = []; source_cursor = none })
      else service.get_feed (or_empty feed_url) >>= (λ body.
        parse_placsp_atom body (
          (codes "dataset_kind", kind_value licitaciones)
          ∷ (codes "feed_url", or_empty feed_url)
          ∷ [])
        >>= (λ tenders. ok (record {
          tenders = keep (λ t. tender_matches_filters U t f) tenders;
          source_cursor = none;
        })))

  abbrev kept_by : Option TenderFilters → List Tender → List Tender
  kept_by none tenders = tenders
  kept_by (some f) tenders = keep (λ t. tender_matches_filters U t f) tenders

  period_archive :
      PlacspDatasetKind
      → ℕ
      → Option ℕ
      → Option TenderFilters
      → Option ℕ
      → Text
      → Result Text SourceFetchResult
  unfolding parse_placsp_zip str
  period_archive kind year month filters limit url = service.get_archive url >>= (λ members.
      parse_placsp_zip members
        ((codes "dataset_kind", kind_value kind)
          ∷ (codes "year", str year)
          ∷ (codes "month", optional_number month (codes "None"))
          ∷ (codes "source_url", url)
          ∷ [])
        limit
      >>= (λ tenders. ok (record {
        tenders = kept_by filters tenders;
        source_cursor = some (
            kind_value kind
            ++ codes ":"
            ++ str year
            ++ codes ":"
            ++ (if month == some 0 then [] else optional_number month []));
      })))

  -- `PLACSPClient.fetch_period`
  unfoldable pub fetch_period :
      PlacspDatasetKind
      → ℕ
      → Option ℕ
      → Option TenderFilters
      → Option ℕ
      → Result Text SourceFetchResult
  unfolding period_archive
  fetch_period kind year month filters limit = elim (build_placsp_period_url kind year month) [
    | raised e ↦ raised (error_text e)
    | ok url ↦ period_archive kind year month filters limit url
  ]
