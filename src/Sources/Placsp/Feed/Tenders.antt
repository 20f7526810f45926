-- ===== src/Sources/Placsp/Feed/Tenders.antt =====
-- The tenders of a PLACSP archive.
use licitaciones_mcp.Base.{
  sym, append-nil, append_assoc, leb→le, true, take, keep, ◌≡◌, refl, ap, ◌∙◌, ℕ, suc, ◌≤◌, ◌⊎◌,
  false, not, ◌||◌, Option, none, some, List, [], ◌∷◌, ◌++◌, All, All-append, All-take, arith, leb,
  length, inl, inr, Bool-cases, list_eq, nat_eq,
}
use mathlib.Core.Path.{subst}
use licitaciones_mcp.Base.Dict.{Dict, insert}
use licitaciones_mcp.Base.Result.{
  Result, ok, raised, ◌>>=◌, >>=-eq-ok, ok-injective, some-injective, unguarded, Result-cases,
}
use licitaciones_mcp.Base.Text.{Text, codes}
use licitaciones_mcp.Base.Unicode.{Unicode}
use licitaciones_mcp.Core.Dedupe.{attach_dedupe_key}
use licitaciones_mcp.Core.Models.{Tender, placsp, or_empty}
use licitaciones_mcp.Core.Normalization.{normalize_text}
use licitaciones_mcp.Core.Normalization.Codes.{IsCpv}
use licitaciones_mcp.Core.Normalization.CpvCodes.{normalize_cpv_codes_lem}
use licitaciones_mcp.Core.Parsing.{Readers}
use licitaciones_mcp.Core.Scoring.{given}
use licitaciones_mcp.Sources.Placsp.{Xml, atom_text, find_first, extract_cpvs}
use licitaciones_mcp.Sources.Placsp.Entry.{Formats, entry_tender, quantity_of, parse_entry}
use licitaciones_mcp.Sources.Placsp.Notice.{IsNotice, normalize_placsp_notice_type-IsNotice}
use licitaciones_mcp.Sources.Placsp.Feed.{
  is_feed_name, Member, PlacspService, add_tender, parse_entries, entries_of, parse_placsp_atom,
  reached, cut, parse_members, parse_placsp_zip,
}

module _ (U : Unicode) where
  -- A tender of PLACSP: its CPV codes have eight digits, and its notice type, if it has one, is a
  -- code of the catalog.
  pub record IsPlacspTender (t : Tender) : Type 0 where
    pub of_placsp : t.source ≡ placsp
    pub cpvs : All (IsCpv U) t.cpv_codes
    pub notice : IsNotice U t.notice_type

below : (m l n : ℕ) → leb m l ≡ false → m ≡ n → suc l ≤ n
below m l n r e = ground arith

module _ {Node : Type 0} (X : Xml Node) (U : Unicode) where
  extract_cpvs-All : (project : Option Node) → All (IsCpv U) (extract_cpvs X U project)
  unfolding extract_cpvs
  extract_cpvs-All none = tt
  extract_cpvs-All (some project) = (normalize_cpv_codes_lem U _).1

  module _ (R : Readers) (F : Formats) where
    module _ (entry : Node) (source_metadata : Dict Text Text) where
      entry_tender-IsPlacspTender :
          (title id : Text) (quantity : Option Text)
          → IsPlacspTender U (entry_tender X U R F entry title id quantity source_metadata)
      unfolding entry_tender
      entry_tender-IsPlacspTender title id quantity = record {
        of_placsp = refl;
        cpvs = extract_cpvs-All (find_first X (some entry) (codes ".//cac:ProcurementProject"));
        notice = normalize_placsp_notice_type-IsNotice U _;
      }

      made-IsPlacspTender :
          (r : Result Text (Option Text)) (title id : Text) (t : Tender)
          → (r >>= (λ q. ok (some (entry_tender X U R F entry title id q source_metadata))))
            ≡ ok (some t)
          → IsPlacspTender U t
      made-IsPlacspTender (ok q) title id t e =
          subst (IsPlacspTender U) (some-injective (ok-injective e))
            (entry_tender-IsPlacspTender title id q)
      made-IsPlacspTender (raised x) title id t e = absurd (cc)

      parse_entry-IsPlacspTender :
          (t : Tender)
          → parse_entry X U R F entry source_metadata ≡ ok (some t)
          → IsPlacspTender U t
      unfolding parse_entry
      parse_entry-IsPlacspTender t e =
          let title = normalize_text (atom_text X entry (codes "atom:title")) in
          let id = normalize_text (atom_text X entry (codes "atom:id")) in
          made-IsPlacspTender (quantity_of X U R F entry) (or_empty title) (or_empty id) t
            ((unguarded (not (given title) || not (given id)) _ e).1)

    module _ (sha256 : Text → Text) (iso_date : ℕ → Text) (service : PlacspService Node) where
      add_tender-All :
          (o : Option Tender) (ts : List Tender)
          → ((t : Tender) → o ≡ some t → IsPlacspTender U t)
          → All (IsPlacspTender U) ts
          → All (IsPlacspTender U) (add_tender X U R F sha256 iso_date service o ts)
      unfolding attach_dedupe_key
      add_tender-All none ts h k = k
      add_tender-All (some t) ts h k =
          let p = h t refl in
          (record { of_placsp = p.of_placsp; cpvs = p.cpvs; notice = p.notice }, k)

      parse_entries-All :
          (source_metadata : Dict Text Text) (es : List Node) (ts : List Tender)
          → parse_entries X U R F sha256 iso_date service source_metadata es ≡ ok ts
          → All (IsPlacspTender U) ts
      unfolding parse_entries
      parse_entries-All source_metadata [] ts e = subst (All (IsPlacspTender U)) (ok-injective e) tt
      parse_entries-All source_metadata (n ∷ es) ts e =
          let (o, first, rest) = >>=-eq-ok (parse_entry X U R F n source_metadata) _ e in
          let (us, later, made) =
            >>=-eq-ok (parse_entries X U R F sha256 iso_date service source_metadata es) _ rest in
          subst (All (IsPlacspTender U)) (ok-injective made) (
            add_tender-All o us
              (λ t p. parse_entry-IsPlacspTender n source_metadata t (first ∙ ap ok p))
              (parse_entries-All source_metadata es us later))

      parse_placsp_atom-All :
          (xml_text : Text) (source_metadata : Dict Text Text) (ts : List Tender)
          → parse_placsp_atom X U R F sha256 iso_date service xml_text source_metadata ≡ ok ts
          → All (IsPlacspTender U) ts
      unfolding parse_placsp_atom
      parse_placsp_atom-All xml_text source_metadata ts e =
          let (root, read, parsed) = >>=-eq-ok (service.fromstring xml_text) _ e in
          parse_entries-All source_metadata (entries_of X U R F sha256 iso_date service root) ts
            parsed

      Within : Option ℕ → List Tender → Type 0
      Within limit ts = (n : ℕ) → limit ≡ some n → length ts ≤ n

      -- There is room for more after the feeds that have been read, if there are any.
      Room : Option ℕ → List Member → List Tender → Type 0
      Room limit front ts = (n : ℕ) → limit ≡ some n → (front ≡ []) ⊎ (suc (length ts) ≤ n)

      module _ (source_metadata : Dict Text Text) where
        -- The feed of a member, parsed with the name of the member in its metadata.
        abbrev pub feed_of : Member → Result Text (List Tender)
        feed_of (name, xml_text) =
            parse_placsp_atom X U R F sha256 iso_date service xml_text
              (insert (codes "zip_member") name source_metadata)

        -- The tenders of feeds that are all parsed, one after the other.
        pub data IsRead : List Member → List Tender → Type 0 where
          nothing : IsRead [] []
          next :
              {m : Member} {ms : List Member} {found rest : List Tender}
              → feed_of m ≡ ok found
              → IsRead ms rest
              → IsRead (m ∷ ms) (found ++ rest)

        -- What becomes of feeds: they are read as a whole, without passing the limit; or the first
        -- ones reach the limit, and their tenders are cut to it; or a feed that is come to before
        -- the limit raises, and so does the whole.
        pub data Archived (limit : Option ℕ) (feeds : List Member)
            : Result Text (List Tender) → Type 0 where
          whole :
              {ts : List Tender}
              → IsRead feeds ts
              → ((n : ℕ) → limit ≡ some n → length ts ≤ n)
              → All (IsPlacspTender U) ts
              → Archived limit feeds (ok ts)
          full :
              (front back : List Member) {all : List Tender} {n : ℕ}
              → limit ≡ some n
              → feeds ≡ front ++ back
              → IsRead front all
              → n ≤ length all
              → All (IsPlacspTender U) (take n all)
              → Archived limit feeds (ok (take n all))
          broken :
              (front back : List Member) (m : Member) {all : List Tender} {e : Text}
              → feeds ≡ front ++ m ∷ back
              → IsRead front all
              → ((n : ℕ) → limit ≡ some n → (front ≡ []) ⊎ (suc (length all) ≤ n))
              → feed_of m ≡ raised e
              → Archived limit feeds (raised e)

        IsRead-snoc :
            {front : List Member} {all found : List Tender} (m : Member)
            → IsRead front all
            → feed_of m ≡ ok found
            → IsRead (front ++ m ∷ []) (all ++ found)
        IsRead-snoc {found = found} m nothing e =
            subst (IsRead (m ∷ [])) (append-nil found) (next e nothing)
        IsRead-snoc {found = found} m (next {found = f} {rest = rest} p r) e =
            subst (IsRead _) (sym (append_assoc f rest found)) (next p (IsRead-snoc m r e))

        cut-Archived :
            (limit : Option ℕ) (feeds front back : List Member) (all : List Tender)
            → feeds ≡ front ++ back
            → IsRead front all
            → All (IsPlacspTender U) all
            → reached X U R F sha256 iso_date service limit all ≡ true
            → Archived limit feeds (ok (cut X U R F sha256 iso_date service limit all))
        unfolding cut reached
        cut-Archived none feeds front back all e r h over = absurd (cc)
        cut-Archived (some n) feeds front back all e r h over =
            full front back refl e r (leb→le n (length all) over) (All-take _ n all h)

        below-Room :
            (limit : Option ℕ) (ts : List Tender)
            → reached X U R F sha256 iso_date service limit ts ≡ false
            → (n : ℕ) → limit ≡ some n
            → suc (length ts) ≤ n
        unfolding reached
        below-Room none ts r n e = absurd (cc)
        below-Room (some m) ts r n e = below m (length ts) n r (some-injective e)

        parse_members-Archived :
            (limit : Option ℕ) (feeds front : List Member) (all : List Tender)
            (members : List Member)
            → feeds ≡ front ++ members
            → IsRead front all
            → All (IsPlacspTender U) all
            → Within limit all
            → Room limit front all
            → Archived limit feeds
                (parse_members X U R F sha256 iso_date service source_metadata limit all members)
        unfolding parse_members Within Room
        parse_members-Archived limit feeds front all [] split r h w room =
            whole (subst (λ fs. IsRead fs all) (sym (split ∙ append-nil front)) r) w h
        parse_members-Archived limit feeds front all ((name, xml_text) ∷ members) split r h w room =
            let metadata = insert (codes "zip_member") name source_metadata in
            let m : Member = (name, xml_text) in
            elim (Result-cases
              (parse_placsp_atom X U R F sha256 iso_date service xml_text metadata)) [
                | inr (x, e) ↦ rw (parse_members, e) (broken front members m split r room e)
                | inl (found, e) ↦
                    let more =
                      All-append (IsPlacspTender U) all found h
                        (parse_placsp_atom-All xml_text metadata found e) in
                    let so_far : IsRead (front ++ m ∷ []) (all ++ found) = IsRead-snoc m r e in
                    let rest : feeds ≡ (front ++ m ∷ []) ++ members =
                      split ∙ sym (append_assoc front (m ∷ []) members) in
                    elim (Bool-cases
                      (reached X U R F sha256 iso_date service limit (all ++ found))) [
                        | inl over ↦
                            rw (parse_members, e, over)
                              (cut-Archived limit feeds (front ++ m ∷ []) members (all ++ found)
                                rest so_far more over)
                        | inr under_it ↦
                            rw (parse_members, e, under_it)
                              (parse_members-Archived limit feeds (front ++ m ∷ []) (all ++ found)
                                members rest so_far more
                                (λ n e.
                                  let b = below-Room limit (all ++ found) under_it n e in
                                  omega (arith, b))
                                (λ n e. inr (below-Room limit (all ++ found) under_it n e)))
                      ]
              ]

        -- The feeds of an archive, the members with a name of a feed, are all read, and their tenders
        -- returned in this order, unless the first ones reach the limit, when their tenders are cut
        -- to it, or one that is come to before raises, when the archive raises. Each tender that is
        -- returned is one of PLACSP, with CPV codes of eight digits and a notice type of the catalog
        -- or none.
        pub parse_placsp_zip-Archived :
            (members : List Member) (limit : Option ℕ)
            → Archived limit
                (keep (λ (name, _). is_feed_name X U R F sha256 iso_date service name) members)
                (parse_placsp_zip X U R F sha256 iso_date service members source_metadata limit)
        unfolding parse_placsp_zip Within Room
        parse_placsp_zip-Archived members limit =
            parse_members-Archived limit _ [] [] _ refl nothing tt (λ n e. omega arith)
              (λ n e. inl refl)
