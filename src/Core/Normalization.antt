-- ===== src/Core/Normalization.antt =====
-- core/normalization.py: text, CPV codes and statuses as they reach the model and the filters.
pub mod Texts
pub mod Codes
pub mod CpvCodes
use licitaciones_mcp.Base.{
  ℕ, zero, suc, ◌+◌, ◌-◌, ◌≡◌, Bool, true, false, not, ◌&&◌, ◌||◌, Option, none, some, List, [],
  ◌∷◌, ◌++◌, map, length, take, drop, keep, any, non_empty, if◌then◌else◌, ◌==◌, nat_eq, list_eq,
  contains, leb,
}
use mathlib.Core.Bool.{xor}
use mathlib.Core.List.{reverse}
use mathlib.Core.Option
use licitaciones_mcp.Base.Text.{
  Text, codes, split, join, blank, strip, occurs_in, split_on, starts_with, is_ascii, lower_ascii,
}
use licitaciones_mcp.Base.Unicode.{Unicode}
use licitaciones_mcp.Core.Models.{
  TenderStatus, planned, open_, closed, awarded, cancelled, unknown, or_empty,
}

-- `value.replace("\xa0", " ")`
replace_nbsp : Text → Text
replace_nbsp = map (λ c. if c == 0xa0 then 0x20 else c)

-- `text or None`
abbrev pub or_none : Text → Option Text
or_none s = if non_empty s then some s else none

unfoldable pub normalize_text : Option Text → Option Text
unfolding replace_nbsp
normalize_text none = none
normalize_text (some value) = or_none (join blank (split (replace_nbsp value)))

-- The argument of `normalize_cpv_codes`: `None`, a comma-separated text or a list.
pub data RawCodes : Type 0 where
  missing : RawCodes
  joined : Text → RawCodes
  listed : List Text → RawCodes

pub raw_values : RawCodes → List Text
raw_values missing = []
raw_values (joined s) = split_on b',' s
raw_values (listed values) = values

abbrev first : Text → Option ℕ
first [] = none
first (c ∷ _) = some c

abbrev pub or_else : Option Text → Option Text → Option Text
or_else (some a) other = some a
or_else none other = other

unfoldable pub every : (ℕ → Bool) → Text → Bool
every p [] = true
every p (c ∷ s) = p c && every p s

-- The loop of `normalize_cpv_codes` and `normalize_cpv_prefixes`: `seen` and `result` grow
-- together.
pub collect : (Text → Option Text) → List Text → List Text → List Text → List Text
collect normalize [] seen result = result
collect normalize (raw ∷ raws) seen result =
    let found = or_empty (normalize raw) in
    let fresh = non_empty found && not (contains seen found) in
    collect normalize raws (if fresh then seen ++ found ∷ [] else seen)
      (if fresh then result ++ found ∷ [] else result)

-- `normalized.endswith(".0")` and the cut of the last two characters
drop_point_zero : Text → Text
drop_point_zero s = if starts_with (reverse s) (codes "0.") then reverse (drop 2 (reverse s)) else s

-- `any(term in folded for term in terms)`
mentions : Text → List Text → Bool
mentions folded terms = any (λ term. occurs_in term folded) terms

module _ (U : Unicode) where
  fold_value : Text → Text
  fold_value value = join blank (split (map lower_ascii (keep is_ascii (U.nfkd value))))

  -- The early return on an empty value gives the empty text.
  unfoldable pub fold_text : Option Text → Text
  unfolding fold_value
  fold_text none = []
  fold_text (some value) = if not (non_empty value) then [] else fold_value value

  -- `\b`: exactly one of the two neighbours is a word character.
  is_word_at : Option ℕ → Bool
  is_word_at none = false
  is_word_at (some c) = U.is_word_char c

  boundary : Option ℕ → Option ℕ → Bool
  boundary before after = xor (is_word_at before) (is_word_at after)

  -- The rest of `CPV_RE` after the eight digits: `(?:-\d)?\b`, the group tried first.
  cpv_tail : ℕ → Text → Bool
  cpv_tail last (dash ∷ digit ∷ rest) =
      (dash == b'-' && U.is_decimal digit && boundary (some digit) (first rest))
      || boundary (some last) (some dash)
  cpv_tail last rest = boundary (some last) (first rest)

  -- `CPV_RE` at one position, `before` being the character in front of it.
  cpv_here : Option ℕ → Text → Option Text
  cpv_here before (a ∷ b ∷ c ∷ d ∷ e ∷ f ∷ g ∷ h ∷ rest) =
      let digits = a ∷ b ∷ c ∷ d ∷ e ∷ f ∷ g ∷ h ∷ [] in
      if boundary before (some a) && every U.is_decimal digits && cpv_tail h rest
      then some digits
      else none
  cpv_here before _ = none

  -- `CPV_RE.search(...)` and `group(1)`
  cpv_search : Option ℕ → Text → Option Text
  unfolding cpv_here
  cpv_search before [] = none
  cpv_search before (c ∷ s) = or_else (cpv_here before (c ∷ s)) (cpv_search (some c) s)

  unfoldable pub normalize_cpv_code : Text → Option Text
  unfolding cpv_search cpv_here cpv_tail boundary is_word_at every
  normalize_cpv_code value = cpv_search none (strip value)

  unfoldable pub normalize_cpv_codes : RawCodes → List Text
  unfolding normalize_cpv_code raw_values collect
  normalize_cpv_codes values = collect normalize_cpv_code (raw_values values) [] []

  unfoldable pub normalize_cpv_prefix : Text → Option Text
  unfolding drop_point_zero every
  normalize_cpv_prefix value =
      let shown = drop_point_zero (keep (λ c. not (c == b'*')) (strip value)) in
      let digits = keep U.is_digit shown in
      if every U.is_decimal digits && leb 2 (length digits) && leb (length digits) 8
      then some digits
      else none

  unfoldable pub normalize_cpv_prefixes : RawCodes → List Text
  unfolding normalize_cpv_prefix raw_values collect
  normalize_cpv_prefixes values = collect normalize_cpv_prefix (raw_values values) [] []

  unfoldable pub normalize_status : Option Text → TenderStatus
  unfolding mentions
  normalize_status value =
      let folded = fold_text value in
      if not (non_empty folded)
      then unknown
      else if folded == codes "pre"
      then planned
      else if folded == codes "pub"
      then open_
      else if contains (codes "ev" ∷ codes "res" ∷ codes "des" ∷ []) folded
      then closed
      else if folded == codes "adj"
      then awarded
      else if folded == codes "anul"
      then cancelled
      else if mentions folded (codes "anuncio previo" ∷ codes "prior information" ∷ [])
      then planned
      else if mentions folded
          (codes "anulada" ∷ codes "cancel" ∷ codes "desist" ∷ codes "renuncia" ∷ [])
      then cancelled
      else if mentions folded (codes "adjudic" ∷ codes "awarded" ∷ [])
      then awarded
      else if mentions folded
          (codes "cerrad" ∷ codes "closed" ∷ codes "finalizada" ∷ codes "resuelta" ∷ [])
      then closed
      else if mentions folded
          (codes "publicada" ∷ codes "open" ∷ codes "abierta" ∷ codes "licitacion" ∷ [])
      then open_
      else unknown

  unfoldable pub normalize_region : Option Text → Option Text
  normalize_region value = Option.map U.title (normalize_text value)
