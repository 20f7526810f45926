-- ===== src/Core/Normalization/Texts.antt =====
-- `normalize_text` and `fold_text` of core/normalization.py: what they keep, and that a second pass
-- changes nothing.
use licitaciones_mcp.Base.{
  ℕ, ◌≡◌, refl, sym, ap, ◌∙◌, ◌⊎◌, ◌++◌, append-nil, Bool, true, false, Option, none, some, List,
  [], ◌∷◌, map, All, arith, keep, non_empty, if◌then◌else◌, inl, inr, Bool-cases, nat_eq, ◌↔◌, ◌==◌,
}
use licitaciones_mcp.Base.Text.{Text, split, join, blank, is_space, is_ascii, lower_ascii}
use mathlib.Core.Path.{subst}
use licitaciones_mcp.Base.Text.Words.{
  IsWord, split-join, split-IsWord, split-All, join-All, split-map, non_empty-join,
}
use licitaciones_mcp.Base.Unicode.{Unicode, IsUnicode, IsAscii}
use licitaciones_mcp.Core.Normalization.{
  replace_nbsp, or_none, normalize_text, fold_value, fold_text,
}

nbsp_space : (c : ℕ) → is_space (if c == 0xa0 then 0x20 else c) ≡ is_space c
unfolding is_space
nbsp_space c = ground arith

nbsp_fixes : (c : ℕ) → is_space c ≡ false → (if c == 0xa0 then 0x20 else c) ≡ c
unfolding is_space
nbsp_fixes c h = ground arith

split-replace_nbsp : (s : Text) → split (replace_nbsp s) ≡ split s
unfolding replace_nbsp
split-replace_nbsp s = split-map (λ c. if c == 0xa0 then 0x20 else c) nbsp_space nbsp_fixes s

normalize_text-eq : (v : Text) → normalize_text (some v) ≡ or_none (join blank (split v))
unfolding normalize_text
normalize_text-eq v = rw split-replace_nbsp

split-join-split : (v : Text) → split (join blank (split v)) ≡ split v
split-join-split v = split-join (split v) (split-IsWord v)

or_none-eq-some : (s n : Text) → or_none s ≡ some n → s ≡ n
or_none-eq-some s n h = ground arith

or_none-eq-none : (s : Text) → or_none s ≡ none → non_empty s ≡ false
or_none-eq-none s h = ground arith

-- White space in order: the text begins and ends with another character, and each white space is a
-- single blank. `after` says that a blank, or the beginning, stands before.
abbrev pub IsSpaced : Bool → Text → Type 0
IsSpaced true [] = ⊥
IsSpaced false [] = Unit
IsSpaced false (c ∷ s) = ((is_space c ≡ false) × IsSpaced false s) ⊎ ((c ≡ 0x20) × IsSpaced true s)
IsSpaced true (c ∷ s) = (is_space c ≡ false) × IsSpaced false s

word-IsSpaced :
    (w rest : Text)
    → All (λ c. is_space c ≡ false) w
    → IsSpaced false rest
    → IsSpaced false (w ++ rest)
word-IsSpaced [] rest h k = k
word-IsSpaced (c ∷ w) rest h k = inl (h.0, word-IsSpaced w rest h.1 k)

first-IsSpaced : (w rest : Text) → IsWord w → IsSpaced false rest → IsSpaced true (w ++ rest)
first-IsSpaced [] rest h k = absurd (let e : false ≡ true = h.0 in cc)
first-IsSpaced (c ∷ w) rest h k = (h.1.0, word-IsSpaced w rest h.1.1 k)

join-IsSpaced :
    (ws : List Text) → All IsWord ws → non_empty ws ≡ true → IsSpaced true (join blank ws)
unfolding join
join-IsSpaced [] h n = absurd (cc)
join-IsSpaced (w ∷ []) h n = rw (sym (append-nil w)) (first-IsSpaced w [] h.0 tt)
join-IsSpaced (w ∷ v ∷ ws) h n =
    first-IsSpaced w (blank ++ join blank (v ∷ ws)) h.0
      (inr (refl, join-IsSpaced (v ∷ ws) h.1 refl))

filled_words : (v n : Text) → or_none (join blank (split v)) ≡ some n → non_empty (split v) ≡ true
filled_words v n h = elim (Bool-cases (non_empty (join blank (split v)))) [
  | inl e ↦ sym (non_empty-join (split v) (split-IsWord v)) ∙ e
  | inr e ↦ absurd (let k = rw e at h in cc)
]

-- A normalised text has the words of the text that it comes from; it begins and ends with a
-- character that is not white space, and all its white space is single blanks; and normalising it
-- again returns it.
pub normalize_text_words :
    (v n : Text)
    → normalize_text (some v) ≡ some n
    → (split n ≡ split v) × IsSpaced true n × (normalize_text (some n) ≡ some n)
normalize_text_words v n h =
    let found : or_none (join blank (split v)) ≡ some n = sym (normalize_text-eq v) ∙ h in
    let e : join blank (split v) ≡ n = or_none-eq-some _ n found in
    let same : split n ≡ split v = ap split (sym e) ∙ split-join-split v in
    (
      same,
      subst (IsSpaced true) e (join-IsSpaced (split v) (split-IsWord v) (filled_words v n found)),
      normalize_text-eq n ∙ ap (λ ws. or_none (join blank ws)) same ∙ sym (normalize_text-eq v) ∙ h,
    )

-- A text has no normal form exactly when it has no word.
pub normalize_text-none : (v : Text) → (normalize_text (some v) ≡ none) ↔ (split v ≡ [])
normalize_text-none v = (
  λ h. empty_of (split v) (
      sym (non_empty-join (split v) (split-IsWord v))
      ∙ or_none-eq-none _ (sym (normalize_text-eq v) ∙ h)),
  λ e. normalize_text-eq v ∙ rw e (nothing),
)
  where
    empty_of : (ws : List Text) → non_empty ws ≡ false → ws ≡ []
    empty_of [] h = refl
    empty_of (w ∷ ws) h = cc

    nothing : or_none (join blank []) ≡ none
    nothing = unfold join in refl

-- A character of folded text: ASCII, and no upper-case letter.
abbrev pub IsFolded : ℕ → Type 0
IsFolded c = (is_ascii c ≡ true) × (lower_ascii c ≡ c)

lower_ascii-IsFolded : (c : ℕ) → is_ascii c ≡ true → IsFolded (lower_ascii c)
unfolding is_ascii lower_ascii
lower_ascii-IsFolded c h = ground arith

map-lower_ascii-IsFolded : (s : Text) → All IsFolded (map lower_ascii (keep is_ascii s))
unfolding keep
map-lower_ascii-IsFolded [] = tt
map-lower_ascii-IsFolded (c ∷ s) = elim (Bool-cases (is_ascii c)) [
  | inl e ↦ rw e (lower_ascii-IsFolded c e, map-lower_ascii-IsFolded s)
  | inr e ↦ rw e (map-lower_ascii-IsFolded s)
]

folded_fixed : (s : Text) → All IsFolded s → map lower_ascii (keep is_ascii s) ≡ s
unfolding keep
folded_fixed [] h = refl
folded_fixed (c ∷ s) h = rw (h.0.0, h.0.1, folded_fixed s h.1)

folded-IsAscii : (s : Text) → All IsFolded s → IsAscii s
folded-IsAscii [] h = tt
folded-IsAscii (c ∷ s) h = (h.0.0, folded-IsAscii s h.1)

module _ (U : Unicode) (L : IsUnicode U) where
  fold_value-IsFolded : (v : Text) → All IsFolded (fold_value U v)
  unfolding fold_value
  fold_value-IsFolded v =
      join-All IsFolded (split _) (unfold is_ascii lower_ascii in (refl, refl))
        (split-All IsFolded _ (map-lower_ascii-IsFolded (U.nfkd v)))

  fold_value-joined : (v : Text) → join blank (split (fold_value U v)) ≡ fold_value U v
  unfolding fold_value
  fold_value-joined v = ap (join blank) (split-join-split _)

  fold_value_fixed : (s : Text) → All IsFolded s → fold_value U s ≡ join blank (split s)
  unfolding fold_value
  fold_value_fixed s h = rw (L.nfkd_ascii s (folded-IsAscii s h), folded_fixed s h)

  fold_text_joined :
      (r : Text) → All IsFolded r → join blank (split r) ≡ r → fold_text U (some r) ≡ r
  unfolding fold_text
  fold_text_joined [] h e = refl
  fold_text_joined (c ∷ r) h e = fold_value_fixed (c ∷ r) h ∙ e

  -- Folded text is ASCII without upper-case letters, and folding it again returns it.
  pub fold_text_idem :
      (v : Option Text)
      → All IsFolded (fold_text U v) × (fold_text U (some (fold_text U v)) ≡ fold_text U v)
  unfolding fold_text
  fold_text_idem none = (tt, refl)
  fold_text_idem (some []) = (tt, refl)
  fold_text_idem (some (c ∷ v)) = (
    fold_value-IsFolded (c ∷ v),
    fold_text_joined _ (fold_value-IsFolded (c ∷ v)) (fold_value-joined (c ∷ v)),
  )
