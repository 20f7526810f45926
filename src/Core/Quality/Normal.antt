-- ===== src/Core/Quality/Normal.antt =====
-- The CPV codes of the normalization pass the check on CPV codes.
use licitaciones_mcp.Base.{◌≡◌, refl, true, List, [], ◌∷◌, All}
use licitaciones_mcp.Base.Text.{Text}
use licitaciones_mcp.Base.Unicode.{Unicode}
use licitaciones_mcp.Core.Normalization.{RawCodes, normalize_cpv_codes}
use licitaciones_mcp.Core.Normalization.Codes.{IsCpv}
use licitaciones_mcp.Core.Normalization.CpvCodes.{normalize_cpv_codes_lem}
use licitaciones_mcp.Core.Quality.{is_valid_cpv_code, every_char}

module _ (U : Unicode) where
  every_decimal : (s : Text) → All (λ d. U.is_decimal d ≡ true) s → every_char U.is_decimal s ≡ true
  unfolding every_char
  every_decimal [] h = refl
  every_decimal (c ∷ s) h = rw (h.0, every_decimal s h.1) refl

  valid_cpv : (c : Text) → IsCpv U c → is_valid_cpv_code U c ≡ true
  unfolding is_valid_cpv_code
  valid_cpv c h = rw (h.0, every_decimal c h.1) refl

  All-valid : (cs : List Text) → All (IsCpv U) cs → All (λ c. is_valid_cpv_code U c ≡ true) cs
  All-valid [] h = tt
  All-valid (c ∷ cs) h = (valid_cpv c h.0, All-valid cs h.1)

  -- Every code that `normalize_cpv_codes` returns passes `is_valid_cpv_code`.
  pub normalize_cpv_codes-valid :
      (values : RawCodes) → All (λ c. is_valid_cpv_code U c ≡ true) (normalize_cpv_codes U values)
  normalize_cpv_codes-valid values = All-valid _ (normalize_cpv_codes_lem U values).1
