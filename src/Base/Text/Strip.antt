-- ===== src/Base/Text/Strip.antt =====
-- `str.strip()` on a text without white space.
use licitaciones_mcp.Base.Text.{Text, is_space, drop_space, strip}
use licitaciones_mcp.Base.Lists.{All, All-append}
use mathlib.Core.Path.{◌≡◌, refl}
use mathlib.Core.Bool.{false}
use mathlib.Core.List.{List, [], ◌∷◌, reverse, reverse-append, reverse-reverse}

pub All-reverse {ℓ κ} : {A : Type ℓ} (P : A → Type κ) (xs : List A) → All P xs → All P (reverse xs)
All-reverse P [] h = tt
All-reverse P (x ∷ xs) h =
    rw (reverse-append (x ∷ []) xs)
      (All-append P (reverse xs) (x ∷ []) (All-reverse P xs h.1) (h.0, tt))

drop_space_fixed : (s : Text) → All (λ c. is_space c ≡ false) s → drop_space s ≡ s
unfolding drop_space
drop_space_fixed [] h = refl
drop_space_fixed (c ∷ s) h = rw h.0

pub strip_fixed : (s : Text) → All (λ c. is_space c ≡ false) s → strip s ≡ s
unfolding strip
strip_fixed s h =
    rw (drop_space_fixed s h, drop_space_fixed (reverse s) (All-reverse _ s h)) (reverse-reverse s)
