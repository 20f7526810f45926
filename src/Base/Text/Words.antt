-- ===== src/Base/Text/Words.antt =====
-- Words: `str.split()` and `" ".join(...)` undo one another.
use licitaciones_mcp.Base.Text.{Text, is_space, split_from, split, join, blank}
use licitaciones_mcp.Base.Tests.{Bool-cases}
use licitaciones_mcp.Base.Lists.{All, All-append, non_empty}
use Prim.Native.Nat.{ℕ}
use mathlib.Core.Path.{◌≡◌, refl, ap, ◌∙◌, sym}
use mathlib.Core.Logic.{inl, inr}
use mathlib.Core.Bool.{true, false}
use mathlib.Core.List.{List, [], ◌∷◌, ◌++◌, map, append-nil, append_assoc}

-- A word has a character, and no white space.
abbrev pub IsWord : Text → Type 0
IsWord w = (non_empty w ≡ true) × All (λ c. is_space c ≡ false) w

non_empty-snoc : (w : Text) (c : ℕ) → non_empty (w ++ c ∷ []) ≡ true
non_empty-snoc [] c = refl
non_empty-snoc (x ∷ w) c = refl

split_from-IsWord : (w s : Text) → All (λ c. is_space c ≡ false) w → All IsWord (split_from w s)
unfolding split_from
split_from-IsWord [] [] h = tt
split_from-IsWord (x ∷ w) [] h = ((refl, h), tt)
split_from-IsWord [] (c ∷ s) h = elim (Bool-cases (is_space c)) [
  | inl e ↦ rw e (split_from-IsWord [] s tt)
  | inr e ↦ rw e (split_from-IsWord (c ∷ []) s (e, tt))
]
split_from-IsWord (x ∷ w) (c ∷ s) h = elim (Bool-cases (is_space c)) [
  | inl e ↦ rw e ((refl, h), split_from-IsWord [] s tt)
  | inr e ↦ rw e (
      split_from-IsWord (x ∷ w ++ c ∷ []) s
        (All-append (λ d. is_space d ≡ false) (x ∷ w) (c ∷ []) h (e, tt)))
]

pub split-IsWord : (s : Text) → All IsWord (split s)
unfolding split
split-IsWord s = split_from-IsWord [] s tt

split_from-append :
    (w v s : Text) → All (λ c. is_space c ≡ false) v → split_from w (v ++ s) ≡ split_from (w ++ v) s
unfolding split_from
split_from-append w [] s h = rw append-nil
split_from-append w (c ∷ v) s h =
    rw h.0 (
      split_from-append (w ++ c ∷ []) v s h.1
      ∙ ap (λ u. split_from u s) (append_assoc w (c ∷ []) v))

split_from-word : (w s : Text) → IsWord w → split_from w (0x20 ∷ s) ≡ w ∷ split_from [] s
unfolding split_from is_space
split_from-word w s h = rw h.0

split_from-join : (ws : List Text) → All IsWord ws → split_from [] (join blank ws) ≡ ws
unfolding split_from join
split_from-join [] h = refl
split_from-join (w ∷ []) h =
    ap (split_from []) (sym (append-nil w)) ∙ split_from-append [] w [] h.0.1 ∙ rw h.0.0
split_from-join (w ∷ v ∷ ws) h =
    split_from-append [] w (blank ++ join blank (v ∷ ws)) h.0.1
    ∙ split_from-word w (join blank (v ∷ ws)) h.0
    ∙ ap (λ rest. w ∷ rest) (split_from-join (v ∷ ws) h.1)

-- Splitting what was joined by blanks gives the words back.
pub split-join : (ws : List Text) → All IsWord ws → split (join blank ws) ≡ ws
unfolding split
split-join ws h = split_from-join ws h

-- A predicate of all characters goes through splitting and joining.
module _ (P : ℕ → Type 0) where
  split_from-All : (w s : Text) → All P w → All P s → All (All P) (split_from w s)
  unfolding split_from
  split_from-All [] [] h k = tt
  split_from-All (x ∷ w) [] h k = (h, tt)
  split_from-All [] (c ∷ s) h k = elim (Bool-cases (is_space c)) [
    | inl e ↦ rw e (split_from-All [] s tt k.1)
    | inr e ↦ rw e (split_from-All (c ∷ []) s (k.0, tt) k.1)
  ]
  split_from-All (x ∷ w) (c ∷ s) h k = elim (Bool-cases (is_space c)) [
    | inl e ↦ rw e (h, split_from-All [] s tt k.1)
    | inr e ↦
        rw e (split_from-All (x ∷ w ++ c ∷ []) s (All-append P (x ∷ w) (c ∷ []) h (k.0, tt)) k.1)
  ]

  pub split-All : (s : Text) → All P s → All (All P) (split s)
  unfolding split
  split-All s k = split_from-All [] s tt k

  pub join-All : (ws : List Text) → P 0x20 → All (All P) ws → All P (join blank ws)
  unfolding join
  join-All [] b h = tt
  join-All (w ∷ []) b h = h.0
  join-All (w ∷ v ∷ ws) b h = All-append P w _ h.0 (b, join-All (v ∷ ws) b h.1)

-- Splitting does not see a mapping that keeps white space white and leaves all else alone.
module _ (f : ℕ → ℕ) (keeps : (c : ℕ) → is_space (f c) ≡ is_space c)
    (fixes : (c : ℕ) → is_space c ≡ false → f c ≡ c) where
  split_from-map : (w s : Text) → split_from w (map f s) ≡ split_from w s
  unfolding split_from
  split_from-map w [] = refl
  split_from-map w (c ∷ s) = elim (Bool-cases (is_space c)) [
    | inl e ↦ rw (keeps c, e, split_from-map [] s)
    | inr e ↦ rw (fixes c e, e, split_from-map (w ++ c ∷ []) s)
  ]

  pub split-map : (s : Text) → split (map f s) ≡ split s
  unfolding split
  split-map s = split_from-map [] s

-- A joined list of words is empty only if there is no word.
pub non_empty-join : (ws : List Text) → All IsWord ws → non_empty (join blank ws) ≡ non_empty ws
unfolding join
non_empty-join [] h = refl
non_empty-join ((c ∷ w) ∷ []) h = refl
non_empty-join ((c ∷ w) ∷ v ∷ ws) h = refl
non_empty-join ([] ∷ ws) h = let e : false ≡ true = h.0.0 in cc
