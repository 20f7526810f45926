-- ===== src/Base/Unicode.antt =====
-- What the program takes from Python's Unicode tables, as a parameter: the character classes and
-- the case and compatibility mappings. `IsUnicode` says what they do on ASCII, and how the classes
-- lie to one another.
use licitaciones_mcp.Base.Text.{
  Text, is_space, is_ascii, lower_ascii, upper_ascii, is_digit_ascii, is_alpha_ascii,
}
use licitaciones_mcp.Base.Lists.{All}
use Prim.Native.Nat.{ℕ}
use mathlib.Core.Path.{◌≡◌, refl, ap₂}
use mathlib.Core.Bool.{Bool, true, false, ◌||◌}
use mathlib.Core.List.{map, [], ◌∷◌}
use native.Mathlib.Omega.{arith}

pub record Unicode : Type 0 where
  -- `unicodedata.normalize("NFKD", s)`
  pub nfkd : Text → Text
  pub upper : Text → Text
  pub lower : Text → Text
  pub casefold : Text → Text
  pub title : Text → Text
  -- `\d` and `\w` of `re`
  pub is_decimal : ℕ → Bool
  pub is_word_char : ℕ → Bool
  -- `str.isdigit`, `str.isalpha` and `str.isalnum` of one character
  pub is_digit : ℕ → Bool
  pub is_alpha : ℕ → Bool
  pub is_alnum : ℕ → Bool

abbrev pub IsAscii : Text → Type 0
IsAscii = All (λ c. is_ascii c ≡ true)

pub record IsUnicode (U : Unicode) : Type 0 where
  pub nfkd_ascii : (s : Text) → IsAscii s → U.nfkd s ≡ s
  pub upper_of_ascii : (s : Text) → IsAscii s → U.upper s ≡ map upper_ascii s
  pub upper_idem : (s : Text) → U.upper (U.upper s) ≡ U.upper s
  pub alpha_of_ascii : (c : ℕ) → is_ascii c ≡ true → U.is_alpha c ≡ is_alpha_ascii c
  pub decimal_ascii : (c : ℕ) → is_ascii c ≡ true → U.is_decimal c ≡ is_digit_ascii c
  pub decimal_word : (c : ℕ) → U.is_decimal c ≡ true → U.is_word_char c ≡ true
  pub decimal_digit : (c : ℕ) → U.is_decimal c ≡ true → U.is_digit c ≡ true
  pub decimal_space : (c : ℕ) → U.is_decimal c ≡ true → is_space c ≡ false
  pub alpha_space : (c : ℕ) → U.is_alpha c ≡ true → is_space c ≡ false

-- The tables cut down to ASCII meet the assumptions.
unfoldable pub ascii_only : Unicode
unfolding upper_ascii lower_ascii is_digit_ascii is_alpha_ascii
ascii_only = record {
  nfkd = λ s. s;
  upper = map upper_ascii;
  lower = map lower_ascii;
  casefold = map lower_ascii;
  title = λ s. s;
  is_decimal = is_digit_ascii;
  is_word_char = λ c. is_digit_ascii c || is_alpha_ascii c;
  is_digit = is_digit_ascii;
  is_alpha = is_alpha_ascii;
  is_alnum = λ c. is_digit_ascii c || is_alpha_ascii c;
}

map-upper_ascii_idem : (s : Text) → map upper_ascii (map upper_ascii s) ≡ map upper_ascii s
unfolding upper_ascii
map-upper_ascii_idem [] = refl
map-upper_ascii_idem (c ∷ s) = ap₂ ◌∷◌ (ground arith) (map-upper_ascii_idem s)

pub ascii_only-IsUnicode : IsUnicode ascii_only
unfolding is_space ascii_only
ascii_only-IsUnicode = record {
  nfkd_ascii = λ s h. refl;
  upper_of_ascii = λ s h. refl;
  upper_idem = map-upper_ascii_idem;
  alpha_of_ascii = λ c h. refl;
  decimal_ascii = λ c h. refl;
  decimal_word = λ c h. ground arith;
  decimal_digit = λ c h. h;
  decimal_space = λ c h. ground arith;
  alpha_space = λ c h. ground arith;
}
