-- ===== src/Core/Json.antt =====
-- JSON values as Python holds them. A number is kept as the text that `str` gives for it.
use licitaciones_mcp.Base.{
  Bool, Option, none, some, List, [], ◌∷◌, if◌then◌else◌, ◌==◌, list_eq, nat_eq,
}
use licitaciones_mcp.Base.Text.{Text}

mutual
  pub data Json : Type 0 where
    null : Json
    boolean : Bool → Json
    number : Text → Json
    text : Text → Json
    array : Items → Json
    object : Fields → Json

  pub data Items : Type 0 where
    nil : Items
    cons : Json → Items → Items

  pub data Fields : Type 0 where
    end : Fields
    field : Text → Json → Fields → Fields

-- `mapping.get(key)`
unfoldable pub get : Text → Fields → Option Json
get key end = none
get key (field k v fs) = if k == key then some v else get key fs

-- A literal `dict` and `list`.
unfoldable pub fields_of : List (Text × Json) → Fields
fields_of [] = end
fields_of ((k, v) ∷ rest) = field k v (fields_of rest)

unfoldable pub items_of : List Json → Items
items_of [] = nil
items_of (v ∷ vs) = cons v (items_of vs)
