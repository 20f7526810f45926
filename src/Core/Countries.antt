-- ===== src/Core/Countries.antt =====
-- core/countries.py: country codes at the boundaries of sources and storage.
pub mod Laws
use licitaciones_mcp.Base.{
  ℕ, ◌≡◌, Bool, true, false, not, ◌&&◌, Option, none, some, List, [], ◌∷◌, non_empty, length,
  if◌then◌else◌, eqb, list_eq, nat_eq, ◌==◌,
}
use licitaciones_mcp.Base.Dict.{Dict, lookup, insert}
use licitaciones_mcp.Base.Result.{Result, ok, raised, ◌>>=◌}
use licitaciones_mcp.Base.Text.{Text, codes, strip}
use licitaciones_mcp.Base.Unicode.{Unicode}

unfoldable pub iso3_to_iso2 : Dict Text Text
iso3_to_iso2 =
    (codes "AUT", codes "AT")
    ∷ (codes "BEL", codes "BE")
    ∷ (codes "BGR", codes "BG")
    ∷ (codes "CHE", codes "CH")
    ∷ (codes "CYP", codes "CY")
    ∷ (codes "CZE", codes "CZ")
    ∷ (codes "DEU", codes "DE")
    ∷ (codes "DNK", codes "DK")
    ∷ (codes "ESP", codes "ES")
    ∷ (codes "EST", codes "EE")
    ∷ (codes "FIN", codes "FI")
    ∷ (codes "FRA", codes "FR")
    ∷ (codes "GBR", codes "GB")
    ∷ (codes "GRC", codes "GR")
    ∷ (codes "HRV", codes "HR")
    ∷ (codes "HUN", codes "HU")
    ∷ (codes "IRL", codes "IE")
    ∷ (codes "ISL", codes "IS")
    ∷ (codes "ITA", codes "IT")
    ∷ (codes "LIE", codes "LI")
    ∷ (codes "LTU", codes "LT")
    ∷ (codes "LUX", codes "LU")
    ∷ (codes "LVA", codes "LV")
    ∷ (codes "MLT", codes "MT")
    ∷ (codes "NLD", codes "NL")
    ∷ (codes "NOR", codes "NO")
    ∷ (codes "POL", codes "PL")
    ∷ (codes "PRT", codes "PT")
    ∷ (codes "ROU", codes "RO")
    ∷ (codes "SVK", codes "SK")
    ∷ (codes "SVN", codes "SI")
    ∷ (codes "SWE", codes "SE")
    ∷ []

-- `{value: key for key, value in _ISO3_TO_ISO2.items()}`
invert : Dict Text Text → Dict Text Text → Dict Text Text
invert [] acc = acc
invert ((key, value) ∷ d) acc = invert d (insert value key acc)

unfoldable pub iso2_to_iso3 : Dict Text Text
unfolding invert insert list_eq iso3_to_iso2
iso2_to_iso3 = invert iso3_to_iso2 []

unfoldable pub country_names : Dict Text Text
country_names =
    (codes "espana", codes "ES")
    ∷ (codes "españa", codes "ES")
    ∷ (codes "spain", codes "ES")
    ∷ (codes "france", codes "FR")
    ∷ (codes "francia", codes "FR")
    ∷ (codes "germany", codes "DE")
    ∷ (codes "alemania", codes "DE")
    ∷ (codes "italy", codes "IT")
    ∷ (codes "italia", codes "IT")
    ∷ (codes "portugal", codes "PT")
    ∷ []

-- The `ValueError`, with the text that was not understood.
pub data CountryError : Type 0 where
  unsupported : Text → CountryError

-- `str.isalpha` on a text that is known not to be empty
every : (ℕ → Bool) → Text → Bool
every p [] = true
every p (c ∷ s) = p c && every p s

module _ (U : Unicode) where
  by_name : Text → Text → Result CountryError (Option Text)
  by_name value clean = elim (lookup (U.casefold clean) country_names) [
    | some code ↦ ok (some code)
    | none ↦ raised (unsupported value)
  ]

  by_code : Text → Text → Text → Result CountryError (Option Text)
  unfolding by_name every
  by_code value clean upper =
      if eqb (length upper) 2 && every U.is_alpha upper
      then ok (some upper)
      else if eqb (length upper) 3 && every U.is_alpha upper
      then elim (lookup upper iso3_to_iso2) [
        | some code ↦ ok (some code)
        | none ↦ by_name value clean
      ]
      else by_name value clean

  unfoldable pub normalize_country_code : Option Text → Result CountryError (Option Text)
  unfolding by_code by_name every
  normalize_country_code none = ok none
  normalize_country_code (some value) =
      let clean = strip value in
      if not (non_empty clean) then ok none else by_code value clean (U.upper clean)

  unfoldable pub ted_country_code : Option Text → Result CountryError (Option Text)
  unfolding normalize_country_code iso2_to_iso3
  ted_country_code value = normalize_country_code value >>= λ found. elim found [
    | none ↦ ok none
    | some iso2 ↦ ok (lookup iso2 iso2_to_iso3)
  ]

  -- `Tender._normalize_country`, and `_country_code` of sources/ted.py
  unfoldable pub country_or_xx : Option Text → Text
  unfolding normalize_country_code
  country_or_xx value = elim (normalize_country_code value) [
    | ok (some code) ↦ if non_empty code then code else codes "XX"
    | ok none ↦ codes "XX"
    | raised _ ↦ codes "XX"
  ]
