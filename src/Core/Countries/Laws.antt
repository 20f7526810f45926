-- ===== src/Core/Countries/Laws.antt =====
-- core/countries.py: a normalised code is a fixed point, and the two tables undo one another.
use licitaciones_mcp.Base.{
  ℕ, ◌≡◌, refl, ap, ◌∙◌, Bool, true, false, ◌&&◌, Option, none, some, [], ◌∷◌, map, All, arith,
  length, eqb, list_eq, option_eq, nat_eq, ◌==◌, inl, inr, ◌⊎◌, leb, &&-true,
}
use licitaciones_mcp.Base.Dict.{lookup, every_entry, every_entry_found}
use licitaciones_mcp.Base.Result.{ok}
use licitaciones_mcp.Base.Text.{Text, strip, is_space, is_ascii, upper_ascii, is_alpha_ascii}
use licitaciones_mcp.Base.Text.Strip.{strip_fixed}
use licitaciones_mcp.Base.Unicode.{Unicode, IsUnicode, IsAscii}
use licitaciones_mcp.Core.Countries.{
  iso3_to_iso2, iso2_to_iso3, country_names, every, by_name, by_code, normalize_country_code,
  ted_country_code,
}

is_capital : ℕ → Bool
is_capital c = leb b'A' c && leb c b'Z'

eqb_to : (a b : ℕ) → eqb a b ≡ true → a ≡ b
eqb_to a b h = ground arith

-- A code of the tables: `n` capital letters.
is_code : ℕ → Text → Bool
unfolding is_capital every
is_code n s = eqb (length s) n && every is_capital s

capital_facts :
    (c : ℕ)
    → is_capital c ≡ true
    → (is_ascii c ≡ true) × (upper_ascii c ≡ c) × (is_alpha_ascii c ≡ true) × (is_space c ≡ false)
unfolding is_capital is_ascii upper_ascii is_alpha_ascii is_space
capital_facts c h = ground arith

tables_hold_codes :
    (every_entry (λ k v. is_code 3 k && is_code 2 v) iso3_to_iso2 ≡ true)
    × (every_entry (λ k v. is_code 2 v) country_names ≡ true)
unfolding every_entry is_code iso3_to_iso2 country_names
tables_hold_codes = (refl, refl)

found_in_iso3 : (k c : Text) → lookup k iso3_to_iso2 ≡ some c → is_code 2 c ≡ true
found_in_iso3 k c f =
    (&&-true _ _ (
      every_entry_found (λ k' v. is_code 3 k' && is_code 2 v) k c iso3_to_iso2 tables_hold_codes.0
        f)).1

found_in_names : (k c : Text) → lookup k country_names ≡ some c → is_code 2 c ≡ true
found_in_names k c f =
    every_entry_found (λ k' v. is_code 2 v) k c country_names tables_hold_codes.1 f

-- The two tables undo one another.
tables_undo :
    every_entry (λ k v. is_code 3 k && (lookup v iso2_to_iso3 == some k)) iso3_to_iso2 ≡ true
unfolding every_entry is_code iso3_to_iso2 iso2_to_iso3 lookup option_eq
tables_undo = refl

is_code_parts :
    (n : ℕ) (s : Text) → is_code n s ≡ true → (length s ≡ n) × (every is_capital s ≡ true)
unfolding is_code
is_code_parts n s h = let (a, b) = &&-true _ _ h in (eqb_to _ _ a, b)

module _ (U : Unicode) (L : IsUnicode U) where
  record Plain (s : Text) : Type 0 where
    upper_fixed : U.upper s ≡ s
    strip_same : strip s ≡ s
    alphabetic : every U.is_alpha s ≡ true

  capitals-IsAscii : (s : Text) → every is_capital s ≡ true → IsAscii s
  unfolding every
  capitals-IsAscii [] h = tt
  capitals-IsAscii (c ∷ s) h =
      let (hc, hs) = &&-true _ _ h in ((capital_facts c hc).0, capitals-IsAscii s hs)

  capitals_upper : (s : Text) → every is_capital s ≡ true → map upper_ascii s ≡ s
  unfolding every
  capitals_upper [] h = refl
  capitals_upper (c ∷ s) h =
      let (hc, hs) = &&-true _ _ h in rw ((capital_facts c hc).1, capitals_upper s hs)

  capitals_alpha : (s : Text) → every is_capital s ≡ true → every U.is_alpha s ≡ true
  unfolding every
  capitals_alpha [] h = refl
  capitals_alpha (c ∷ s) h =
      let (hc, hs) = &&-true _ _ h in
      let f = capital_facts c hc in rw (L.alpha_of_ascii c f.0, f.2) (capitals_alpha s hs)

  alpha_no_space : (s : Text) → every U.is_alpha s ≡ true → All (λ c. is_space c ≡ false) s
  unfolding every
  alpha_no_space [] h = tt
  alpha_no_space (c ∷ s) h =
      let (hc, hs) = &&-true _ _ h in (L.alpha_space c hc, alpha_no_space s hs)

  capitals-Plain : (s : Text) → every is_capital s ≡ true → Plain s
  capitals-Plain s h = record {
    upper_fixed = L.upper_of_ascii s (capitals-IsAscii s h) ∙ capitals_upper s h;
    strip_same = strip_fixed s (alpha_no_space s (capitals_alpha s h));
    alphabetic = capitals_alpha s h;
  }

  -- A plain text of two letters is returned as it is.
  two_letters :
      (s : Text) → Plain s → length s ≡ 2 → normalize_country_code U (some s) ≡ ok (some s)
  unfolding normalize_country_code
  two_letters [] p n = absurd (omega arith)
  two_letters (a ∷ s) p n = rw (p.strip_same, p.upper_fixed, p.alphabetic, n)

  code_fixed :
      (c : Text)
      → is_code 2 c ≡ true
      → (length c ≡ 2) × (normalize_country_code U (some c) ≡ ok (some c))
  code_fixed c h =
      let (two, k) = is_code_parts 2 c h in (two, two_letters c (capitals-Plain c k) two)

  by_name_code : (v clean c : Text) → by_name U v clean ≡ ok (some c) → is_code 2 c ≡ true
  unfolding by_name
  by_name_code v clean c h = ground (arith, found_in_names (U.casefold clean) c)

  by_code_code :
      (v clean c : Text)
      → by_code U v clean (U.upper clean) ≡ ok (some c)
      → (is_code 2 c ≡ true) ⊎ ((U.upper clean ≡ c) × (length c ≡ 2) × (every U.is_alpha c ≡ true))
  unfolding by_code
  by_code_code v clean c h = ground (arith, found_in_iso3 (U.upper clean) c, by_name_code v clean c)

  letters-Plain : (s : Text) → every U.is_alpha (U.upper s) ≡ true → Plain (U.upper s)
  letters-Plain s h = record {
    upper_fixed = L.upper_idem s;
    strip_same = strip_fixed (U.upper s) (alpha_no_space (U.upper s) h);
    alphabetic = h;
  }

  accepted :
      (c clean : Text)
      → (is_code 2 c ≡ true) ⊎ ((U.upper clean ≡ c) × (length c ≡ 2) × (every U.is_alpha c ≡ true))
      → (length c ≡ 2) × (normalize_country_code U (some c) ≡ ok (some c))
  accepted c clean (inl h) = code_fixed c h
  accepted c clean (inr (e, n, a)) = (n, two_letters c (rw e at (letters-Plain clean (rw e a))) n)

  -- A country code that `normalize_country_code` returns has two characters, and normalising it
  -- again returns it.
  pub normalize_country_code_fixed :
      (value : Option Text) (c : Text)
      → normalize_country_code U value ≡ ok (some c)
      → (length c ≡ 2) × (normalize_country_code U (some c) ≡ ok (some c))
  normalize_country_code_fixed none c h = unfold normalize_country_code in cc
  normalize_country_code_fixed (some value) c h =
      accepted c (strip value)
        (by_code_code value (strip value) c (unfold normalize_country_code in ground (arith, h)))

  three_letters :
      (s v : Text)
      → Plain s
      → length s ≡ 3
      → lookup s iso3_to_iso2 ≡ some v
      → normalize_country_code U (some s) ≡ ok (some v)
  unfolding normalize_country_code
  three_letters [] v p n f = absurd (omega arith)
  three_letters (a ∷ s) v p n f = rw (p.strip_same, p.upper_fixed, p.alphabetic, n) (rw f)

  -- Every ISO-3 code of the table is returned as it is by `ted_country_code`, which goes through
  -- its ISO-2 code and back.
  pub ted_country_code_round_trip :
      (k v : Text)
      → lookup k iso3_to_iso2 ≡ some v
      → (normalize_country_code U (some k) ≡ ok (some v))
        × (ted_country_code U (some k) ≡ ok (some k))
  ted_country_code_round_trip k v f =
      let (code, back) = &&-true _ _ (
        every_entry_found (λ k' v'. is_code 3 k' && (lookup v' iso2_to_iso3 == some k')) k v
          iso3_to_iso2 tables_undo f) in
      let (n, capitals) = is_code_parts 3 k code in
      let there : normalize_country_code U (some k) ≡ ok (some v) =
        three_letters k v (capitals-Plain k capitals) n f in
      (
        there,
        unfold ted_country_code in
            rw (there) (ap ok ((option_eq.beq_iff (lookup v iso2_to_iso3) (some k)).0 back)),
      )
