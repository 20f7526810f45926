-- ===== src/Ocds/Release/Parties.antt =====
-- The references of a release to its party.
use licitaciones_mcp.Base.{
  ◌≡◌, refl, ap, ◌∙◌, Bool, true, false, Option, none, some, [], ◌∷◌, ◌++◌, inl, inr, Bool-cases,
  if◌then◌else◌, list_eq, nat_eq, ◌==◌, eq_self,
}
use licitaciones_mcp.Base.Int.{ℤ}
use licitaciones_mcp.Base.Text.{Text, codes}
use licitaciones_mcp.Base.Unicode.{Unicode}
use licitaciones_mcp.Core.Json.{Json, Fields, text, object, get, fields_of}
use licitaciones_mcp.Core.Models.{Tender, or_empty}
use licitaciones_mcp.Ocds.Release.{
  Export, Entries, party_id, has_party, party, tender_block, tender_to_release, object_of, array_of,
  set_if, set_value,
}

-- A key that is not the one asked for, set or not, is passed over.
get-skip :
    (k j : Text) (test : Bool) (v : Json) (rest : Entries)
    → (j == k) ≡ false
    → get k (fields_of (set_if test j v ++ rest)) ≡ get k (fields_of rest)
unfolding get fields_of
get-skip k j true v rest h = rw h refl
get-skip k j false v rest h = refl

get-last :
    (k j : Text) (test : Bool) (v : Json)
    → (j == k) ≡ false
    → get k (fields_of (set_if test j v ++ [])) ≡ none
unfolding get fields_of
get-last k j test v h = get-skip k j test v [] h

get-set_if :
    (k : Text) (test : Bool) (v : Json) (rest : Entries)
    → get k (fields_of (set_if test k v ++ rest))
      ≡ (if test then some v else get k (fields_of rest))
unfolding get fields_of
get-set_if k true v rest = rw (eq_self k) refl
get-set_if k false v rest = refl

get-set_value :
    (X : Export) (k : Text) (amount : Option ℤ) (currency : Option Text) (rest : Entries)
    → (codes "value" == k) ≡ false
    → get k (fields_of (set_value X amount currency ++ rest)) ≡ get k (fields_of rest)
unfolding get fields_of set_value
get-set_value X k none currency rest h = refl
get-set_value X k (some a) currency rest h = rw h refl

module _ (U : Unicode) (X : Export) (t : Tender) where
  abbrev pub reference : Entries → Json
  reference rest = object_of ((codes "id", text (party_id U X t)) ∷ rest)

  party-id : get (codes "id") (party U X t) ≡ some (text (party_id U X t))
  unfolding party get fields_of list_eq
  party-id = refl

  entity :
      get (codes "procuringEntity") (fields_of (tender_block U X t))
      ≡ (if has_party U X t then some (reference []) else none)
  unfolding tender_block list_eq
  entity =
      let wanted = codes "procuringEntity" in
      get-skip wanted (codes "id") true _ _ refl
      ∙ get-skip wanted (codes "title") true _ _ refl
      ∙ get-skip wanted (codes "status") true _ _ refl
      ∙ get-skip wanted (codes "description") _ _ _ refl
      ∙ get-skip wanted (codes "procurementMethodDetails") _ _ _ refl
      ∙ get-skip wanted (codes "mainProcurementCategory") _ _ _ refl
      ∙ get-set_value X wanted t.estimated_value t.currency _ refl
      ∙ get-skip wanted (codes "items") _ _ _ refl
      ∙ get-skip wanted (codes "tenderPeriod") _ _ _ refl
      ∙ get-set_if wanted (has_party U X t) _ _
      ∙ ap (λ rest. if has_party U X t then some (reference []) else rest)
          (get-last wanted (codes "documents") _ _ refl)

  -- What a release says of the buyer.
  pub record RefersToParty (release : Fields) : Type 0 where
    pub parties :
        get (codes "parties") release
        ≡ (if has_party U X t then some (array_of (object (party U X t) ∷ [])) else none)
    pub party_has_id : get (codes "id") (party U X t) ≡ some (text (party_id U X t))
    pub buyer : get (codes "buyer") release ≡ (
        if has_party U X t
        then some (reference ((codes "name", text (or_empty t.buyer_name)) ∷ []))
        else none)
    pub tender_of : get (codes "tender") release ≡ some (object_of (tender_block U X t))
    pub procuring_entity :
        get (codes "procuringEntity") (fields_of (tender_block U X t))
        ≡ (if has_party U X t then some (reference []) else none)

  -- A release has a party exactly if the tender has a buyer, by name or by tax id; the buyer of the
  -- release and the procuring entity of its tender are there in the same case, and both refer to
  -- that party by its id.
  pub tender_to_release-RefersToParty :
      (prefix : Text) → RefersToParty (tender_to_release U X t prefix)
  unfolding tender_to_release get fields_of list_eq
  tender_to_release-RefersToParty prefix = elim (Bool-cases (has_party U X t)) [
    | inl h ↦ record {
      parties = rw h refl;
      party_has_id = party-id;
      buyer = rw h refl;
      tender_of = rw h refl;
      procuring_entity = entity;
    }
    | inr h ↦ record {
      parties = rw h (get-skip (codes "parties") (codes "awards") _ _ [] refl);
      party_has_id = party-id;
      buyer = rw h (get-skip (codes "buyer") (codes "awards") _ _ [] refl);
      tender_of = rw h refl;
      procuring_entity = entity;
    }
  ]
