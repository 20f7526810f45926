-- ===== src/Sources/TedNotice.antt =====
-- sources/ted.py: `parse_ted_search_response`, from the JSON of a response to tenders. A JSON value
-- that has no method `strip`, or no `get`, where the code calls it raises an `AttributeError`.
use licitaciones_mcp.Base.{
  Bool, true, false, not, Option, none, some, List, [], ◌∷◌, ◌++◌, non_empty, if◌then◌else◌, nat_eq,
  list_eq, contains, ◌==◌,
}
use licitaciones_mcp.Base.Int.{ℤ}
use licitaciones_mcp.Base.Result.{Result, ok, raised}
use licitaciones_mcp.Base.Text.{Text, codes, join}
use licitaciones_mcp.Core.Json.{
  Json, Items, Fields, null, boolean, number, text, array, object, nil, cons, end, field, get,
}
use licitaciones_mcp.Core.Models.{DateTime, or_empty}
use licitaciones_mcp.Core.Parsing.{Readers, written, parse_datetime, parse_money}
use licitaciones_mcp.Core.Scoring.{given}
use licitaciones_mcp.Sources.TedQuery.{ted_fields}

pub data NoticeError : Type 0 where
  attribute_error : NoticeError

-- `value not in (None, "", [])`
unfoldable pub is_filled : Json → Bool
is_filled null = false
is_filled (text s) = non_empty s
is_filled (array nil) = false
is_filled _ = true

filled : Option Json → Option Json
unfolding is_filled
filled none = none
filled (some v) = if is_filled v then some v else none

-- `_first`: the value of the first key that has one, and else `None`.
unfoldable pub first_value : Fields → List Text → Json
unfolding filled
first_value notice [] = null
first_value notice (key ∷ keys) =
    let rest = first_value notice keys in
    elim (filled (get key notice)) [ none ↦ rest | some v ↦ v ]

-- `str(value)` of a number, a text or a truth value is `none` for what is not one of them.
abbrev or_other {ℓ} : {A : Type ℓ} → Option A → A → A
or_other none other = other
or_other (some a) other = a

-- The value of the first of the keys that the object has.
abbrev or_next : Option (Option Text) → Option (Option Text) → Option (Option Text)
or_next (some v) other = some v
or_next none other = other

unfoldable mutual
  -- `_scalar`
  pub scalar : Json → Option Text
  scalar null = none
  scalar (boolean b) = some (if b then codes "True" else codes "False")
  scalar (number n) = some n
  scalar (text s) = some s
  scalar (array vs) = first_scalar vs
  scalar (object fs) =
      or_other
        (or_next (scalar_at (codes "value") fs) (
          or_next (scalar_at (codes "text") fs) (
            or_next (scalar_at (codes "label") fs)
              (or_next (scalar_at (codes "name") fs) (scalar_at (codes "id") fs)))))
        none

  -- `_scalar(value[0]) if value else None`
  first_scalar : Items → Option Text
  first_scalar nil = none
  first_scalar (cons v vs) = scalar v

  -- `_scalar(value[key])`, if the key is there
  scalar_at : Text → Fields → Option (Option Text)
  scalar_at key end = none
  scalar_at key (field k v fs) =
      let rest = scalar_at key fs in let here = scalar v in if k == key then some here else rest

item_scalars : Items → List Text
unfolding scalar
item_scalars nil = []
item_scalars (cons v vs) =
    let rest = item_scalars vs in if given (scalar v) then or_empty (scalar v) ∷ rest else rest

unfoldable pub as_list : Json → List Text
unfolding item_scalars scalar
as_list null = []
as_list (array vs) = item_scalars vs
as_list value = if given (scalar value) then or_empty (scalar value) ∷ [] else []

-- `f"https://ted.europa.eu/notice/{external_id}"`
unfoldable pub notice_url : Text → Text
notice_url external_id = codes "https://ted.europa.eu/notice/" ++ external_id

-- `str` of the list of the fields
unfoldable pub fields_text : Text
unfolding ted_fields
fields_text = codes "['" ++ join (codes "', '") ted_fields ++ codes "']"

module _ (R : Readers) where
  unfoldable pub is_true : Json → Bool
  is_true null = false
  is_true (boolean b) = b
  is_true (number n) = not (R.is_zero n)
  is_true (text s) = non_empty s
  is_true (array nil) = false
  is_true (array (cons _ _)) = true
  is_true (object end) = false
  is_true (object (field _ _ _)) = true

  -- `a or b`, of what `get` gives
  or_value : Option Json → Json → Json
  unfolding is_true
  or_value none other = other
  or_value (some v) other = if is_true v then v else other

  -- `str(value)`
  str_of : Json → Text
  str_of null = codes "None"
  str_of (boolean b) = if b then codes "True" else codes "False"
  str_of (number n) = n
  str_of (text s) = s
  str_of v = R.repr v

  abbrev or_null : Option Json → Json
  or_null none = null
  or_null (some v) = v

  -- The reference of a link that is an object.
  object_links : Fields → List Text
  unfolding or_value str_of is_true
  object_links fs =
      let href = or_value (get (codes "href") fs) (or_null (get (codes "url") fs)) in
      if is_true href then str_of href ∷ [] else []

  item_links : Items → List Text
  unfolding object_links
  item_links nil = []
  item_links (cons (text s) vs) = s ∷ item_links vs
  item_links (cons (object fs) vs) = object_links fs ++ item_links vs
  item_links (cons _ vs) = item_links vs

  raw_links : Json → List Text
  unfolding item_links object_links
  raw_links (text s) = s ∷ []
  raw_links (array vs) = item_links vs
  raw_links (object fs) = object_links fs
  raw_links _ = []

  unfoldable pub links : Fields → Text → List Text
  unfolding raw_links or_value
  links notice external_id =
      let raw =
        or_value (get (codes "links") notice)
          (or_value (get (codes "url") notice) (or_null (get (codes "noticeUrl") notice))) in
      let found = raw_links raw in
      if contains found (notice_url external_id)
      then found
      else found ++ notice_url external_id ∷ []

  -- `parse_money` and `parse_datetime` of a JSON value
  unfoldable pub json_money : Json → Result NoticeError (Option ℤ)
  json_money null = ok none
  json_money (boolean b) = ok (some (R.float_of (if b then codes "1" else codes "0")))
  json_money (number n) = ok (some (R.float_of n))
  json_money (text s) = ok (parse_money R s)
  json_money _ = raised attribute_error

  unfoldable pub json_datetime : Json → Result NoticeError (Option DateTime)
  json_datetime null = ok none
  json_datetime (text s) = ok (parse_datetime R (written s))
  json_datetime _ = raised attribute_error
