-- ===== src/Base/Frac.antt =====
-- Fractions that are not negative, compared by cross multiplication.
use Prim.Native.Nat.{ℕ, ◌+◌, ◌*◌}
use mathlib.Core.Bool.{Bool}
use licitaciones_mcp.Base.Tests.{leb}

pub record Frac : Type 0 where
  pub num : ℕ
  pub den : ℕ

abbrev pub zero_frac : Frac
zero_frac = record { num = 0; den = 1 }

unfoldable pub plus : Frac → Frac → Frac
plus a b = record { num = a.num * b.den + b.num * a.den; den = a.den * b.den }

unfoldable pub le_frac : Frac → Frac → Bool
le_frac a b = leb (a.num * b.den) (b.num * a.den)
