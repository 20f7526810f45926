-- ===== src/Core/Parsing.antt =====
-- core/normalization.py: `parse_datetime`, `parse_date` and `parse_money`. Python's readers of
-- moments and of decimal numbers are parameters.
use licitaciones_mcp.Base.{
  ℕ, zero, suc, ◌-◌, ◌*◌, ◌/◌, ◌&&◌, Bool, Option, none, some, [], ◌∷◌, ◌++◌, length, non_empty,
  if◌then◌else◌, nat_eq, list_eq, contains,
}
use licitaciones_mcp.Base.Int.{ℤ}
use licitaciones_mcp.Base.Text.{Text, codes, strip, starts_with}
use licitaciones_mcp.Core.Json.{Json}
use licitaciones_mcp.Core.Models.{DateTime}

-- A `datetime` as Python reads it: with its zone, or microseconds without one.
pub data PyDatetime : Type 0 where
  aware : DateTime → PyDatetime
  naive : ℕ → PyDatetime

-- The readers: `none` for a `ValueError` or an `InvalidOperation`. An amount is in hundredths.
pub record Readers : Type 0 where
  pub fromisoformat : Text → Option PyDatetime
  -- `datetime.strptime(raw, fmt)`
  pub strptime : Text → Text → Option ℕ
  -- `float(Decimal(s))`, and `float` of a number by its text
  pub decimal : Text → Option ℤ
  pub float_of : Text → ℤ
  -- whether a number is zero, and `str` of a list or a dict
  pub is_zero : Text → Bool
  pub repr : Json → Text

abbrev day : ℕ
day = 86400000000

-- `value.replace(tzinfo=UTC)`
unfoldable pub at_utc : ℕ → DateTime
at_utc n = record { instant = n; date = n / day }

with_zone : PyDatetime → DateTime
unfolding at_utc
with_zone (aware d) = d
with_zone (naive n) = at_utc n

abbrev pub or_moment : Option DateTime → Option DateTime → Option DateTime
or_moment (some d) other = some d
or_moment none other = other

-- `s.replace(old, new)`: `skip` counts what is left of an occurrence.
replace_from : Text → Text → ℕ → Text → Text
replace_from old new skip [] = []
replace_from old new zero (c ∷ s) =
    let found = starts_with (c ∷ s) old in
    let rest = replace_from old new (if found then length old - 1 else 0) s in
    if found then new ++ rest else c ∷ rest
replace_from old new (suc skip) (c ∷ s) = replace_from old new skip s

unfoldable pub replace : Text → Text → Text → Text
unfolding replace_from
replace old new s = replace_from old new 0 s

-- The argument of `parse_datetime`.
pub data RawMoment : Type 0 where
  missing : RawMoment
  date_time : PyDatetime → RawMoment
  calendar_day : ℕ → RawMoment
  written : Text → RawMoment

module _ (R : Readers) where
  from_iso : Text → Option DateTime
  unfolding with_zone
  from_iso candidate = elim (R.fromisoformat candidate) [
    | none ↦ none
    | some d ↦ some (with_zone d)
  ]

  from_format : Text → Text → Option DateTime
  from_format raw fmt = elim (R.strptime raw fmt) [ none ↦ none | some n ↦ some (at_utc n) ]

  -- The two loops: the first candidate and then the first format that is read.
  parse_text : Text → Option DateTime
  unfolding from_iso from_format
  parse_text raw = or_moment (from_iso raw) (
      or_moment (from_iso (replace (codes "Z") (codes "+00:00") raw)) (
        or_moment (from_format raw (codes "%Y-%m-%d")) (
          or_moment (from_format raw (codes "%d/%m/%Y"))
            (or_moment (from_format raw (codes "%Y%m%d")) (from_format raw (codes "%d-%m-%Y"))))))

  unfoldable pub parse_datetime : RawMoment → Option DateTime
  unfolding with_zone at_utc parse_text
  parse_datetime missing = none
  parse_datetime (date_time d) = some (with_zone d)
  parse_datetime (calendar_day n) = some (at_utc (n * day))
  parse_datetime (written value) =
      let raw = strip value in if non_empty raw then parse_text raw else none

  unfoldable pub parse_date : RawMoment → Option ℕ
  parse_date value = elim (parse_datetime value) [ none ↦ none | some d ↦ some d.date ]

  -- The text that `Decimal` is given.
  unfoldable pub clean_money : Text → Text
  clean_money raw =
      let cleaned =
        replace (codes " ") [] (replace (codes "EUR") [] (replace (codes "€") [] raw)) in
      if contains cleaned b',' && contains cleaned b'.'
      then replace (codes ",") (codes ".") (replace (codes ".") [] cleaned)
      else if contains cleaned b','
      then replace (codes ",") (codes ".") cleaned
      else cleaned

  -- `parse_money` of a text; a number passes through `float`.
  unfoldable pub parse_money : Text → Option ℤ
  unfolding clean_money
  parse_money value =
      let raw = strip value in if non_empty raw then R.decimal (clean_money raw) else none
