-- ===== src/Core/Scoring/Cpv.antt =====
-- `_cpv_score` and `_cpv_overlaps` of core/scoring.py.
use licitaciones_mcp.Base.{
  ℕ, zero, suc, max, ◌≤◌, ◌≡◌, refl, sym, ap, ◌∙◌, ◌↔◌, ◌⊎◌, inl, inr, true, List, [], ◌∷◌, take,
  Any, here, there, arith, ltb, list_eq, nat_eq,
}
use licitaciones_mcp.Base.Text.{Text, text_iff}
use licitaciones_mcp.Core.Scoring.{pair_score, best_of_wanted, best_of, cpv_score, cpv_overlaps}

take-take : (m n : ℕ) (s : Text) → m ≤ n → take m (take n s) ≡ take m s
take-take zero n s h = refl
take-take (suc m) zero s h = absurd (omega arith)
take-take (suc m) (suc n) [] h = refl
take-take (suc m) (suc n) (c ∷ s) h = ap (λ r. c ∷ r) (take-take m n s (omega arith))

shorter_agree : (m n : ℕ) (s t : Text) → m ≤ n → take n s ≡ take n t → take m s ≡ take m t
shorter_agree m n s t h e = sym (take-take m n s h) ∙ ap (take m) e ∙ take-take m n t h

pair_score_pos : (t w : Text) → (1 ≤ pair_score t w) ↔ (take 2 t ≡ take 2 w)
unfolding pair_score
pair_score_pos t w = (
  λ h. ground (
    arith,
    text_iff t w,
    text_iff (take 5 t) (take 5 w),
    text_iff (take 3 t) (take 3 w),
    text_iff (take 2 t) (take 2 w),
    shorter_agree 2 5 t w (omega arith),
    shorter_agree 2 3 t w (omega arith),
  ),
  λ e. ground (arith, text_iff (take 2 t) (take 2 w)),
)

pair_score_full : (t w : Text) → (4 ≤ pair_score t w) ↔ (t ≡ w)
unfolding pair_score
pair_score_full t w = (λ h. ground (arith, text_iff t w), λ e. ground (arith, text_iff t w))

le_max : (k a b : ℕ) → k ≤ max a b → (k ≤ a) ⊎ (k ≤ b)
le_max k a b h = grind arith

-- `best` reaches a bound if it starts there or if a pair does.
module _ (k : ℕ) where
  abbrev Reached : ℕ → List Text → List Text → Type 0
  Reached best ts ws = (k ≤ best) ⊎ Any (λ t. Any (λ w. k ≤ pair_score t w) ws) ts

  raised_by :
      (best : ℕ) (t w : Text) (ws : List Text)
      → (k ≤ max best (pair_score t w)) ⊎ Any (λ u. k ≤ pair_score t u) ws
      → (k ≤ best) ⊎ Any (λ u. k ≤ pair_score t u) (w ∷ ws)
  raised_by best t w ws (inl e) = elim (le_max k best (pair_score t w) e) [
    | inl low ↦ inl low
    | inr high ↦ inr (here high)
  ]
  raised_by best t w ws (inr a) = inr (there a)

  raises :
      (best : ℕ) (t w : Text) (ws : List Text)
      → (k ≤ best) ⊎ Any (λ u. k ≤ pair_score t u) (w ∷ ws)
      → (k ≤ max best (pair_score t w)) ⊎ Any (λ u. k ≤ pair_score t u) ws
  raises best t w ws (inl e) = inl (omega arith)
  raises best t w ws (inr (here h)) = inl (omega arith)
  raises best t w ws (inr (there a)) = inr a

  best_of_wanted_reached :
      (best : ℕ) (t : Text) (ws : List Text)
      → (k ≤ best_of_wanted best t ws) ↔ ((k ≤ best) ⊎ Any (λ w. k ≤ pair_score t w) ws)
  unfolding best_of_wanted
  best_of_wanted_reached best t [] = (inl, λ h. elim h [ inl e ↦ e | inr a ↦ elim a [ ] ])
  best_of_wanted_reached best t (w ∷ ws) =
      let (to, from) = best_of_wanted_reached (max best (pair_score t w)) t ws in
      (λ h. raised_by best t w ws (to h), λ h. from (raises best t w ws h))

  split_row :
      {best : ℕ} {row : ℕ} (t : Text) (ts ws : List Text)
      → ((k ≤ best) ⊎ Any (λ w. k ≤ pair_score t w) ws → k ≤ row)
      → Reached best (t ∷ ts) ws
      → Reached row ts ws
  split_row t ts ws f (inl e) = inl (f (inl e))
  split_row t ts ws f (inr (here a)) = inl (f (inr a))
  split_row t ts ws f (inr (there a)) = inr a

  best_of-Reached : (best : ℕ) (ts ws : List Text) → (k ≤ best_of best ts ws) ↔ Reached best ts ws
  unfolding best_of
  best_of-Reached best [] ws = (inl, λ h. elim h [ inl e ↦ e | inr a ↦ elim a [ ] ])
  best_of-Reached best (t ∷ ts) ws =
      let (to, from) = best_of-Reached (best_of_wanted best t ws) ts ws in
      let (row_to, row_from) = best_of_wanted_reached best t ws in
      (
        λ h. elim (to h) [
          | inl low ↦ elim (row_to low) [ inl e ↦ inl e | inr a ↦ inr (here a) ]
          | inr a ↦ inr (there a)
        ],
        λ h. from (split_row t ts ws row_from h),
      )

  nothing_wanted : (ts : List Text) → Any (λ t. Any (λ w. k ≤ pair_score t w) []) ts → ⊥
  nothing_wanted [] a = elim a [ ]
  nothing_wanted (t ∷ ts) (here a) = elim a [ ]
  nothing_wanted (t ∷ ts) (there a) = nothing_wanted ts a

  cpv_score_reached :
      (ts ws : List Text)
      → 1 ≤ k
      → (k ≤ cpv_score ts ws) ↔ Any (λ t. Any (λ w. k ≤ pair_score t w) ws) ts
  unfolding cpv_score
  cpv_score_reached [] ws low = (λ h. absurd (omega arith), λ a. elim a [ ])
  cpv_score_reached (t ∷ ts) [] low =
      (λ h. absurd (omega arith), λ a. absurd (nothing_wanted (t ∷ ts) a))
  cpv_score_reached (t ∷ ts) (w ∷ ws) low =
      let (to, from) = best_of-Reached 0 (t ∷ ts) (w ∷ ws) in
      (λ h. elim (to h) [ inl e ↦ absurd (omega arith) | inr a ↦ a ], λ a. from (inr a))

positive : (n : ℕ) → 1 ≤ n → ltb 0 n ≡ true
positive n h = ground arith

Any-map {ℓ κ μ} :
    {A : Type ℓ} (P : A → Type κ) (Q : A → Type μ) (xs : List A)
    → ((x : A) → P x → Q x)
    → Any P xs
    → Any Q xs
Any-map P Q [] f a = elim a [ ]
Any-map P Q (x ∷ xs) f (here p) = here (f x p)
Any-map P Q (x ∷ xs) f (there a) = there (Any-map P Q xs f a)

-- Some code of the tender and some wanted code are in the relation.
abbrev pub SomePair : (Text → Text → Type 0) → List Text → List Text → Type 0
SomePair R ts ws = Any (λ t. Any (R t) ws) ts

SomePair-map :
    (R S : Text → Text → Type 0) (ts ws : List Text)
    → ((t w : Text) → R t w → S t w)
    → SomePair R ts ws
    → SomePair S ts ws
SomePair-map R S ts ws f = Any-map _ _ ts (λ t. Any-map (R t) (S t) ws (f t))

-- `_cpv_overlaps` holds exactly when a code of the tender and a wanted code have the same first
-- two characters, and the score is the full one exactly when the two lists share a code.
pub cpv_overlaps_iff :
    (ts ws : List Text)
    → ((cpv_overlaps ts ws ≡ true) ↔ SomePair (λ t w. take 2 t ≡ take 2 w) ts ws)
      × ((4 ≤ cpv_score ts ws) ↔ SomePair (λ t w. t ≡ w) ts ws)
unfolding cpv_overlaps
cpv_overlaps_iff ts ws =
    let (to1, from1) = cpv_score_reached 1 ts ws (omega arith) in
    let (to4, from4) = cpv_score_reached 4 ts ws (omega arith) in
    (
      (
        λ h. SomePair-map _ _ ts ws (λ t w. (pair_score_pos t w).0) (to1 (ground arith)),
        λ a. positive _ (from1 (SomePair-map _ _ ts ws (λ t w. (pair_score_pos t w).1) a)),
      ),
      (
        λ h. SomePair-map _ _ ts ws (λ t w. (pair_score_full t w).0) (to4 h),
        λ a. from4 (SomePair-map _ _ ts ws (λ t w. (pair_score_full t w).1) a),
      ),
    )
