-- ===== src/Core/Normalization/CpvCodes.antt =====
-- `normalize_cpv_codes` of core/normalization.py, as a whole.
use licitaciones_mcp.Base.{
  ◌≡◌, refl, true, false, none, some, List, [], ◌∷◌, All, arith, any, non_empty, ◌==◌, list_eq,
  option_eq, nat_eq, contains, Distinct,
}
use mathlib.Core.Bool.{xor}
use licitaciones_mcp.Base.Text.{Text, is_space}
use licitaciones_mcp.Base.Text.Strip.{strip_fixed}
use licitaciones_mcp.Base.Unicode.{Unicode, IsUnicode}
use licitaciones_mcp.Core.Normalization.{
  RawCodes, listed, raw_values, boundary, is_word_at, cpv_tail, cpv_here, cpv_search, every,
  normalize_cpv_code, normalize_cpv_codes,
}
use licitaciones_mcp.Core.Normalization.Codes.{
  IsCpv, normalize_cpv_code-IsCpv, collect-Distinct, contains-collect, collect-All, collect_fixed,
}

module _ (U : Unicode) where
  cpv_filled : (raw c : Text) → normalize_cpv_code U raw ≡ some c → non_empty c ≡ true
  cpv_filled raw [] e = absurd (omega (arith, (normalize_cpv_code-IsCpv U raw [] e).0))
  cpv_filled raw (d ∷ c) e = refl

  -- The result of `normalize_cpv_codes` lists no code twice, all its codes have eight decimal
  -- digits, and it holds exactly the codes that the raw values normalise to.
  pub normalize_cpv_codes_lem :
      (values : RawCodes)
      → let result = normalize_cpv_codes U values in
        Distinct result
        × All (IsCpv U) result
        × ((c : Text)
            → contains result c
              ≡ any (λ raw. normalize_cpv_code U raw == some c) (raw_values values))
  unfolding normalize_cpv_codes any contains
  normalize_cpv_codes_lem values = (
    collect-Distinct (normalize_cpv_code U) cpv_filled (raw_values values) [] tt,
    collect-All (normalize_cpv_code U) cpv_filled (IsCpv U) (normalize_cpv_code-IsCpv U)
        (raw_values values) [] tt,
    λ c. contains-collect (normalize_cpv_code U) cpv_filled (raw_values values) [] c,
  )

  module _ (L : IsUnicode U) where
    digits_no_space :
        (c : Text) → All (λ d. U.is_decimal d ≡ true) c → All (λ d. is_space d ≡ false) c
    digits_no_space [] h = tt
    digits_no_space (d ∷ c) h = (L.decimal_space d h.0, digits_no_space c h.1)

    cpv_search_fixed : (c : Text) → IsCpv U c → cpv_search U none c ≡ some c
    unfolding cpv_search cpv_here cpv_tail boundary is_word_at every xor
    cpv_search_fixed (a1 ∷ a2 ∷ a3 ∷ a4 ∷ a5 ∷ a6 ∷ a7 ∷ a8 ∷ []) (n, h) =
        ground (arith, L.decimal_word a1, L.decimal_word a8)
    cpv_search_fixed c (n, h) = absurd (omega arith)

    -- An eight-digit code is its own normal form.
    pub normalize_cpv_code_fixed : (c : Text) → IsCpv U c → normalize_cpv_code U c ≡ some c
    unfolding normalize_cpv_code
    normalize_cpv_code_fixed c h = rw (strip_fixed c (digits_no_space c h.1)) (cpv_search_fixed c h)

    codes_fixed :
        (cs : List Text) → All (IsCpv U) cs → All (λ c. normalize_cpv_code U c ≡ some c) cs
    codes_fixed [] h = tt
    codes_fixed (c ∷ cs) h = (normalize_cpv_code_fixed c h.0, codes_fixed cs h.1)

    -- Normalising a normalised list of codes changes nothing.
    pub normalize_cpv_codes_idem :
        (values : RawCodes)
        → normalize_cpv_codes U (listed (normalize_cpv_codes U values))
          ≡ normalize_cpv_codes U values
    normalize_cpv_codes_idem values =
        let facts = normalize_cpv_codes_lem values in
        unfold normalize_cpv_codes in
        collect_fixed (normalize_cpv_code U) cpv_filled _ [] (codes_fixed _ facts.1) facts.0
