-- ===== src/Sources/Placsp.antt =====
-- sources/placsp.py: the reading of XML trees. `xml.etree` is a parameter: a type of elements, with
-- what the parser calls of it.
pub mod Notice
pub mod Entry
pub mod Feed
use licitaciones_mcp.Base.{
  ℕ, Bool, true, false, not, ◌&&◌, ◌||◌, Option, none, some, List, [], ◌∷◌, ◌++◌, map, keep,
  non_empty, if◌then◌else◌, ◌==◌, list_eq, option_eq, nat_eq, contains,
}
use licitaciones_mcp.Base.Text.{Text, codes, split_on, occurs_in}
use licitaciones_mcp.Base.Unicode.{Unicode}
use licitaciones_mcp.Core.Models.{DateTime, or_empty}
use licitaciones_mcp.Core.Normalization.{normalize_text, normalize_cpv_codes, listed, or_else}
use licitaciones_mcp.Core.Parsing.{Readers, RawMoment, missing, written, parse_datetime}
use licitaciones_mcp.Core.Scoring.{given}

pub record Xml (Node : Type 0) : Type 0 where
  pub tag : Node → Text
  pub text : Node → Option Text
  -- `attrib.get(name)`
  pub attrib : Text → Node → Option Text
  -- the element and those below it, in document order
  pub iter : Node → List Node
  -- `find` and `findall` with the namespaces of `_namespaces`
  pub find : Text → Node → Option Node
  pub findall : Text → Node → List Node
  -- the same with `ATOM_NS`
  pub find_atom : Text → Node → Option Node
  pub findall_atom : Text → Node → List Node

last_part : Text → List Text → Text
last_part other [] = other
last_part other (p ∷ ps) = last_part p ps

-- `tag.rsplit("}", 1)[-1]`
unfoldable pub local_name : Text → Text
unfolding last_part
local_name tag = last_part [] (split_on b'}' tag)

unfoldable pub xpath_local_name : Text → Text
unfolding last_part
xpath_local_name xpath = last_part [] (split_on b':' (last_part [] (split_on b'/' xpath)))

-- `value not in values`, and the append.
unfoldable pub add_new : List Text → Text → List Text
add_new values value =
    if non_empty value && not (contains values value) then values ++ value ∷ [] else values

abbrev pub moment : Option Text → RawMoment
moment none = missing
moment (some s) = written s

-- A helper that returns `None` for the root `None`.
abbrev pub within {ℓ κ} : {A : Type ℓ} {B : Type κ} → B → (A → B) → Option A → B
within other f none = other
within other f (some root) = f root

module _ {Node : Type 0} (X : Xml Node) where
  -- `_text`
  unfoldable pub atom_text : Node → Text → Option Text
  atom_text root xpath = within none X.text (X.find_atom xpath root)

  named : Text → Node → Bool
  named name element = local_name (X.tag element) == name

  first_named : Text → List Node → Option Node
  unfolding named
  first_named name [] = none
  first_named name (e ∷ es) =
      let rest = first_named name es in if named name e then some e else rest

  -- The text of the first element of that name that has one.
  first_named_text : Text → List Node → Option Text
  unfolding named
  first_named_text name [] = none
  first_named_text name (e ∷ es) =
      let rest = first_named_text name es in
      if named name e && given (X.text e) then X.text e else rest

  abbrev or_node : Option Node → Option Node → Option Node
  or_node (some e) other = some e
  or_node none other = other

  unfoldable pub find_first : Option Node → Text → Option Node
  unfolding first_named
  find_first none xpath = none
  find_first (some root) xpath =
      or_node (X.find xpath root) (first_named (xpath_local_name xpath) (X.iter root))

  unfoldable pub first_text : Option Node → List Text → Option Text
  unfolding first_named_text
  first_text none xpaths = none
  first_text (some root) [] = none
  first_text (some root) (xpath ∷ xpaths) =
      let rest = first_text (some root) xpaths in
      let found = within none X.text (X.find xpath root) in
      if given found
      then found
      else or_else (first_named_text (xpath_local_name xpath) (X.iter root)) rest

  texts_of : List Text → List Node → List Text
  unfolding add_new
  texts_of values [] = values
  texts_of values (e ∷ es) = texts_of (add_new values (or_empty (normalize_text (X.text e)))) es

  unfoldable pub extract_texts : Option Node → Text → List Text
  unfolding texts_of named
  extract_texts none xpath = []
  extract_texts (some root) xpath =
      let found = X.findall xpath root in
      texts_of []
        (if non_empty found then found else keep (named (xpath_local_name xpath)) (X.iter root))

  links_from : List Text → List Node → List Text
  unfolding add_new
  links_from links [] = links
  links_from links (e ∷ es) = links_from (add_new links (or_empty (X.attrib (codes "href") e))) es

  unfoldable pub entry_links : Node → List Text
  unfolding links_from
  entry_links entry = links_from [] (X.findall_atom (codes "atom:link") entry)

  -- The values of the loop of `_extract_cpvs`.
  cpv_values : (Text → Text) → List Node → List Text
  cpv_values upper [] = []
  cpv_values upper (e ∷ es) =
      let rest = cpv_values upper es in
      let name = local_name (X.tag e) in
      if occurs_in (codes "CPV") (upper name) || name == codes "ItemClassificationCode"
      then (if given (X.text e) then or_empty (X.text e) ∷ [] else [])
        ++ within [] (λ listed_as. listed_as ∷ []) (X.attrib (codes "listName") e)
        ++ rest
      else rest

  -- `candidates` of `_extract_party_identifier`
  candidates : (Text → Text) → List Node → List (Text × Option Text)
  candidates upper [] = []
  candidates upper (e ∷ es) =
      let rest = candidates upper es in
      let value = normalize_text (X.text e) in
      let scheme = normalize_text (X.attrib (codes "schemeName") e) in
      if contains (codes "CompanyID" ∷ codes "EndpointID" ∷ codes "ID" ∷ []) (local_name (X.tag e))
        && given value
      then (or_empty value, if given scheme then some (upper (or_empty scheme)) else none) ∷ rest
      else rest

  currency_among : (Text → Text) → List Node → Option Text
  currency_among upper [] = none
  currency_among upper (e ∷ es) =
      let rest = currency_among upper es in
      let currency = normalize_text (X.attrib (codes "currencyID") e) in
      if given currency then some (upper (or_empty currency)) else rest

-- The value of the first candidate of a scheme.
of_scheme : Text → List (Text × Option Text) → Option Text
of_scheme wanted [] = none
of_scheme wanted ((value, scheme) ∷ cs) =
    let rest = of_scheme wanted cs in if scheme == some wanted then some value else rest

head_value : List (Text × Option Text) → Option Text
head_value [] = none
head_value ((value, _) ∷ _) = some value

unfoldable pub best_identifier : List (Text × Option Text) → Option Text
unfolding of_scheme head_value
best_identifier cs = or_else (of_scheme (codes "NIF") cs) (
    or_else (of_scheme (codes "CIF") cs)
      (or_else (of_scheme (codes "NIE") cs) (or_else (of_scheme (codes "VAT") cs) (head_value cs))))

module _ {Node : Type 0} (X : Xml Node) (U : Unicode) where
  unfoldable pub extract_cpvs : Option Node → List Text
  unfolding cpv_values
  extract_cpvs none = []
  extract_cpvs (some project) =
      normalize_cpv_codes U (listed (cpv_values X U.upper (X.iter project)))

  unfoldable pub extract_party_identifier : Option Node → Option Text
  unfolding candidates
  extract_party_identifier none = none
  extract_party_identifier (some party) = best_identifier (candidates X U.upper (X.iter party))

  unfoldable pub extract_currency : List (Option Node) → Option Text
  unfolding currency_among
  extract_currency [] = none
  extract_currency (none ∷ roots) = extract_currency roots
  extract_currency (some root ∷ roots) =
      or_else (currency_among X U.upper (X.iter root)) (extract_currency roots)

module _ {Node : Type 0} (X : Xml Node) (R : Readers) where
  unfoldable pub extract_deadline : Option Node → Option DateTime
  unfolding first_text
  extract_deadline process =
      let end_date = first_text X process (
        codes ".//cac:TenderSubmissionDeadlinePeriod/cbc:EndDate"
        ∷ codes ".//cbc:DeadlineDate"
        ∷ codes ".//cbc:EndDate"
        ∷ []) in
      let end_time = first_text X process (
        codes ".//cac:TenderSubmissionDeadlinePeriod/cbc:EndTime"
        ∷ codes ".//cbc:DeadlineTime"
        ∷ codes ".//cbc:EndTime"
        ∷ []) in
      if given end_date && given end_time
      then parse_datetime R (written (or_empty end_date ++ codes "T" ++ or_empty end_time))
      else parse_datetime R (moment end_date)
