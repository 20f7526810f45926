-- ===== src/Base/Text.antt =====
-- Python text as the list of its code points, with the string methods that the program calls.
use Prim.Native.Char.{code}
pub mod Words
pub mod Strip
use Prim.Native.Nat.{ℕ, ◌+◌, ◌-◌}
use Prim.Native.String.{String}
use mathlib.Core.Path.{◌≡◌}
use mathlib.Core.Logic.{◌↔◌}
use mathlib.Core.Bool.{Bool, true, false, ◌&&◌, ◌||◌}
use mathlib.Core.List.{List, [], ◌∷◌, ◌++◌, reverse}
use licitaciones_mcp.Base.Tests.{ltb, leb, eqb, if◌then◌else◌}
use licitaciones_mcp.Base.Lists.{non_empty}
use licitaciones_mcp.Base.Equality.{list_eq, ◌==◌, nat_eq}

abbrev pub Text : Type 0
Text = List ℕ

-- A text literal. `String` has its own `[]` and `∷`.
abbrev pub codes : String → Text
codes String.[] = []
codes (String.◌∷◌ c s) = code c ∷ codes s

-- `str.isspace` on one character: what `str.split()` and `str.strip()` take as white space.
unfoldable pub is_space : ℕ → Bool
is_space c =
    (leb 0x09 c && leb c 0x0d)
    || (leb 0x1c c && leb c 0x20)
    || eqb c 0x85
    || eqb c 0xa0
    || eqb c 0x1680
    || (leb 0x2000 c && leb c 0x200a)
    || eqb c 0x2028
    || eqb c 0x2029
    || eqb c 0x202f
    || eqb c 0x205f
    || eqb c 0x3000

-- `str.split()`: `w` is the word being read.
split_from : Text → Text → List Text
split_from w [] = if non_empty w then w ∷ [] else []
split_from w (c ∷ s) =
    let rest = split_from (if is_space c then [] else w ++ c ∷ []) s in
    if is_space c && non_empty w then w ∷ rest else rest

unfoldable pub split : Text → List Text
unfolding split_from
split s = split_from [] s

-- `sep.join(parts)`
unfoldable pub join : Text → List Text → Text
join sep [] = []
join sep (w ∷ []) = w
join sep (w ∷ v ∷ ws) = w ++ (sep ++ join sep (v ∷ ws))

abbrev pub blank : Text
blank = 0x20 ∷ []

drop_space : Text → Text
drop_space [] = []
drop_space (c ∷ s) = if is_space c then drop_space s else c ∷ s

-- `str.strip()`
unfoldable pub strip : Text → Text
unfolding drop_space
strip s = reverse (drop_space (reverse (drop_space s)))

-- `hay.startswith(needle)`
unfoldable pub starts_with : Text → Text → Bool
starts_with hay [] = true
starts_with [] (n ∷ needle) = false
starts_with (h ∷ hay) (n ∷ needle) = h == n && starts_with hay needle

-- `needle in hay`
unfoldable pub occurs_in : Text → Text → Bool
unfolding starts_with
occurs_in needle [] = starts_with [] needle
occurs_in needle (h ∷ hay) = starts_with (h ∷ hay) needle || occurs_in needle hay

-- `str.split(sep)` for one character
unfoldable pub split_on : ℕ → Text → List Text
split_on sep [] = [] ∷ []
split_on sep (c ∷ s) = prepend (split_on sep s)
  where
    prepend : List Text → List Text
    prepend parts = if c == sep then [] ∷ parts else cons_head parts
      where
        cons_head : List Text → List Text
        cons_head [] = (c ∷ []) ∷ []
        cons_head (w ∷ ws) = (c ∷ w) ∷ ws

unfoldable pub is_ascii : ℕ → Bool
is_ascii c = ltb c 128

-- `str.lower()` and `str.upper()` on ASCII characters
unfoldable pub lower_ascii : ℕ → ℕ
lower_ascii c = if leb b'A' c && leb c b'Z' then c + 32 else c

unfoldable pub upper_ascii : ℕ → ℕ
upper_ascii c = if leb b'a' c && leb c b'z' then c - 32 else c

unfoldable pub is_digit_ascii : ℕ → Bool
is_digit_ascii c = leb b'0' c && leb c b'9'

unfoldable pub is_alpha_ascii : ℕ → Bool
is_alpha_ascii c = (leb b'A' c && leb c b'Z') || (leb b'a' c && leb c b'z')

pub text_iff : (s t : Text) → ((s == t) ≡ true) ↔ (s ≡ t)
text_iff s t = list_eq.beq_iff s t
