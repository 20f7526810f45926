-- ===== src/Core/Quality/Checks.antt =====
-- What the tests of the validation say of the values that they look at.
use licitaciones_mcp.Base.{
  ℕ, ◌*◌, ◌≤◌, ◌≡◌, refl, ap, sym, here, there, ◌∙◌, ◌↔◌, ◌⊎◌, inl, inr, Bool, true, false, not,
  ◌&&◌, Option, none, some, List, [], ◌∷◌, length, take, drop, keep, non_empty, All, Any, contains,
  Bool-cases, Option-cases, &&-true, arith, list_eq, nat_eq, ◌==◌, eqb,
}
use licitaciones_mcp.Base.Dict.{Dict, keys}
use licitaciones_mcp.Base.Int.{ℤ, pos, negsuc, lt_ℤ, scaled_lt}
use licitaciones_mcp.Base.Text.{Text, is_digit_ascii}
use licitaciones_mcp.Base.Unicode.{Unicode}
use licitaciones_mcp.Core.Models.{Tender, DateTime, open_, status_eq, or_empty}
use licitaciones_mcp.Core.Normalization.{normalize_text, or_none}
use licitaciones_mcp.Core.Scoring.{given}
use licitaciones_mcp.Core.Quality.{
  every_char, is_capital, is_capital_or_digit, is_valid_cpv_code, is_valid_nuts_code,
  normalize_tax_id, is_valid_spanish_tax_id, is_unknown_code, wrong_tax_id, negative_value,
  outlier_value, deadline_first, award_exceeds, open_without_deadline,
}

-- A letter from A to Z, and one or a digit.
abbrev pub IsCapital : ℕ → Type 0
IsCapital c = (b'A' ≤ c) × (c ≤ b'Z')

abbrev pub IsCapitalOrDigit : ℕ → Type 0
IsCapitalOrDigit c = IsCapital c ⊎ ((b'0' ≤ c) × (c ≤ b'9'))

every_char-All :
    (p : ℕ → Bool) (P : ℕ → Type 0)
    → ((c : ℕ) → (p c ≡ true) ↔ P c)
    → (s : Text) → (every_char p s ≡ true) ↔ All P s
unfolding every_char
every_char-All p P t [] = (λ h. tt, λ h. refl)
every_char-All p P t (c ∷ s) = (
  λ h.
      let (first, rest) = &&-true (p c) (every_char p s) h in
      ((t c).0 first, (every_char-All p P t s).0 rest),
  λ h. rw ((t c).1 h.0) ((every_char-All p P t s).1 h.1),
)

is_capital_iff : (c : ℕ) → (is_capital c ≡ true) ↔ IsCapital c
unfolding is_capital
is_capital_iff c = ground arith

is_capital_or_digit_iff : (c : ℕ) → (is_capital_or_digit c ≡ true) ↔ IsCapitalOrDigit c
unfolding is_capital_or_digit is_capital is_digit_ascii
is_capital_or_digit_iff c = ground arith

contains_iff : (xs : List Text) (a : Text) → (contains xs a ≡ true) ↔ Any (λ x. x ≡ a) xs
unfolding contains
contains_iff [] a = (λ h. absurd (cc), λ h. elim h [ ])
contains_iff (x ∷ xs) a = elim (Bool-cases (a == x)) [
  | inl e ↦ (λ h. here (sym ((list_eq.beq_iff a x).0 e)), λ h. rw e refl)
  | inr e ↦ (
    λ h. there ((contains_iff xs a).0 (rw e at h)),
    λ h. rw e ((contains_iff xs a).1 (later e h)),
  )
]
  where
    later : (a == x) ≡ false → Any (λ y. y ≡ a) (x ∷ xs) → Any (λ y. y ≡ a) xs
    later e (here p) = absurd (let k = (list_eq.beq_iff a x).1 (sym p) in cc)
    later e (there h) = h

not_wrong : (b : Bool) → (not b ≡ false) ↔ (b ≡ true)
not_wrong true = (λ h. refl, λ h. refl)
not_wrong false = (λ h. cc, λ h. cc)

module _ (U : Unicode) where
  -- Eight decimal digits.
  abbrev pub IsCpvCode : Text → Type 0
  IsCpvCode c = (length c ≡ 8) × All (λ d. U.is_decimal d ≡ true) c

  pub is_valid_cpv_code_iff : (c : Text) → (is_valid_cpv_code U c ≡ true) ↔ IsCpvCode c
  unfolding is_valid_cpv_code
  is_valid_cpv_code_iff c =
      let digits =
        every_char-All U.is_decimal (λ d. U.is_decimal d ≡ true) (λ d. (λ h. h, λ h. h)) c in
      (
        λ h.
            let (eight, all) = &&-true (eqb (length c) 8) (every_char U.is_decimal c) h in
            (ground arith, digits.0 all),
        λ (eight, all). rw (digits.1 all) (ground arith),
      )

  -- In upper case, two letters, and up to three more letters or digits.
  abbrev pub IsNutsCode : Text → Type 0
  IsNutsCode v =
      (3 ≤ length (U.upper v))
      × (length (U.upper v) ≤ 5)
      × All IsCapital (take 2 (U.upper v))
      × All IsCapitalOrDigit (drop 2 (U.upper v))

  pub is_valid_nuts_code_iff : (v : Text) → (is_valid_nuts_code U v ≡ true) ↔ IsNutsCode v
  unfolding is_valid_nuts_code
  is_valid_nuts_code_iff v =
      let letters = every_char-All is_capital IsCapital is_capital_iff (take 2 (U.upper v)) in
      let others =
        every_char-All is_capital_or_digit IsCapitalOrDigit is_capital_or_digit_iff
          (drop 2 (U.upper v)) in
      (
        λ h. (ground arith, ground arith, letters.0 (ground arith), others.0 (ground arith)),
        λ (low, high, a, b). rw (letters.1 a, others.1 b) (ground arith),
      )

  -- In upper case, the letters and digits of the number are nine, from A to Z and 0 to 9.
  abbrev pub IsTaxId : Text → Type 0
  IsTaxId v =
      (length (keep U.is_alnum (U.upper v)) ≡ 9)
      × All IsCapitalOrDigit (keep U.is_alnum (U.upper v))

  nine_code :
      (code : Text)
      → ((elim (or_none code) [
        | none ↦ false
        | some c ↦ eqb (length c) 9 && every_char is_capital_or_digit c
      ])
          ≡ true)
        ↔ ((length code ≡ 9) × All IsCapitalOrDigit code)
  nine_code [] = (λ h. absurd (cc), λ h. absurd (let e : 0 ≡ 9 = h.0 in omega arith))
  nine_code (c ∷ cs) =
      let all =
        every_char-All is_capital_or_digit IsCapitalOrDigit is_capital_or_digit_iff (c ∷ cs) in
      (
        λ h.
            let (nine, each) =
              &&-true (eqb (length (c ∷ cs)) 9) (every_char is_capital_or_digit (c ∷ cs)) h in
            (ground arith, all.0 each),
        λ (nine, each). rw (all.1 each) (ground arith),
      )

  is_valid_spanish_tax_id_iff : (v : Text) → (is_valid_spanish_tax_id U (some v) ≡ true) ↔ IsTaxId v
  unfolding is_valid_spanish_tax_id normalize_tax_id
  is_valid_spanish_tax_id_iff v = nine_code (keep U.is_alnum (U.upper v))

  pub wrong_tax_id_iff :
      (o : Option Text) → (wrong_tax_id U o ≡ false) ↔ (given o ≡ true → IsTaxId (or_empty o))
  unfolding wrong_tax_id
  wrong_tax_id_iff none = (λ h g. absurd (cc), λ h. refl)
  wrong_tax_id_iff (some v) = elim (Bool-cases (non_empty v)) [
    | inl e ↦ (
      λ h g. (is_valid_spanish_tax_id_iff v).0 ((not_wrong _).0 (rw (wrong_tax_id, e) at h)),
      λ h. rw (wrong_tax_id, e) ((not_wrong _).1 ((is_valid_spanish_tax_id_iff v).1 (h e))),
    )
    | inr e ↦ (λ h g. absurd (cc), λ h. rw (wrong_tax_id, e) refl)
  ]

  -- Its normal form in upper case is empty or in the catalog.
  abbrev pub IsKnown : Dict Text Text → Option Text → Type 0
  IsKnown catalog o =
      (non_empty (U.upper (or_empty (normalize_text o))) ≡ false)
      ⊎ Any (λ k. k ≡ U.upper (or_empty (normalize_text o))) (keys catalog)

  pub is_unknown_code_iff :
      (catalog : Dict Text Text) (o : Option Text)
      → (is_unknown_code U catalog o ≡ false) ↔ IsKnown catalog o
  unfolding is_unknown_code
  is_unknown_code_iff catalog o =
      let code = U.upper (or_empty (normalize_text o)) in
      elim (Bool-cases (non_empty code)) [
        | inl e ↦ (
          λ h. inr (
              (contains_iff (keys catalog) code).0
                ((not_wrong _).0 (rw (is_unknown_code, e) at h))),
          λ h. elim h [
            | inl f ↦ absurd (cc)
            | inr k ↦
                rw (is_unknown_code, e) ((not_wrong _).1 ((contains_iff (keys catalog) code).1 k))
          ],
        )
        | inr e ↦ (λ h. inl e, λ h. rw (is_unknown_code, e) refl)
      ]

in_range :
    (v : ℤ)
    → lt_ℤ v (pos 0) ≡ false
    → lt_ℤ (pos 5000000000) v ≡ false
    → (n : ℕ) × (v ≡ pos n) × (n ≤ 5000000000)
in_range (pos n) a b = (n, refl, ground arith)
in_range (negsuc n) a b = absurd (ground arith)

-- The estimated value, in hundredths, is not negative and at most fifty million.
abbrev pub HasPlainValue : Tender → Type 0
HasPlainValue t = (v : ℤ) → t.estimated_value ≡ some v → (n : ℕ) × (v ≡ pos n) × (n ≤ 5000000000)

pub plain_value :
    (t : Tender) → ((negative_value t ≡ false) × (outlier_value t ≡ false)) ↔ HasPlainValue t
unfolding negative_value outlier_value
plain_value t = (
  λ (a, b) v e. in_range v (rw (negative_value, e) at a) (rw (outlier_value, e) at b),
  λ h. elim (Option-cases t.estimated_value) [
    | inl e ↦ (rw (negative_value, e) refl, rw (outlier_value, e) refl)
    | inr (v, e) ↦
        let (n, q, small) = h v e in
        (rw (negative_value, e, q) (ground arith), rw (outlier_value, e, q) (ground arith))
  ],
)

-- The deadline is not before the publication.
abbrev pub HasOrder : Tender → Type 0
HasOrder t =
    (p d : DateTime) → t.published_at ≡ some p → t.deadline_at ≡ some d → p.instant ≤ d.instant

pub deadline_first_iff : (t : Tender) → (deadline_first t ≡ false) ↔ HasOrder t
unfolding deadline_first
deadline_first_iff t = (
  λ h p d e f. let k = rw (deadline_first, e, f) at h in ground arith,
  λ h. elim (Option-cases t.published_at) [
    | inl e ↦ rw (deadline_first, e) refl
    | inr (p, e) ↦ elim (Option-cases t.deadline_at) [
      | inl f ↦ rw (deadline_first, e, f) refl
      | inr (d, f) ↦ let le = h p d e f in rw (deadline_first, e, f) (ground arith)
    ]
  ],
)

-- An open tender has a deadline.
abbrev pub HasDeadline : Tender → Type 0
HasDeadline t = t.status ≡ open_ → (d : DateTime) × (t.deadline_at ≡ some d)

pub open_without_deadline_iff : (t : Tender) → (open_without_deadline t ≡ false) ↔ HasDeadline t
unfolding open_without_deadline
open_without_deadline_iff t = elim (Bool-cases (t.status == open_)) [
  | inl e ↦ elim (Option-cases t.deadline_at) [
    | inl f ↦ (
      λ h. absurd (let k = rw (open_without_deadline, e, f) at h in cc),
      λ h. absurd (let (d, g) = h ((status_eq.beq_iff t.status open_).0 e) in cc),
    )
    | inr (d, f) ↦ (λ h q. (d, f), λ h. rw (open_without_deadline, e, f) refl)
  ]
  | inr e ↦ (
    λ h q. absurd (let k = (status_eq.beq_iff t.status open_).1 q in cc),
    λ h. rw (open_without_deadline, e) refl,
  )
]

-- An award is at most 5 / 4 of the estimate, where neither is negative.
abbrev pub HasPlainAward : Tender → Type 0
HasPlainAward t =
    (n m : ℕ) → t.estimated_value ≡ some (pos n) → t.award_value ≡ some (pos m) → 4 * m ≤ 5 * n

fits_award :
    (n : ℕ) (a : ℤ) → ((m : ℕ) → a ≡ pos m → 4 * m ≤ 5 * n) → scaled_lt 5 (pos n) 4 a ≡ false
fits_award n (pos m) h = let le = h m refl in ground arith
fits_award n (negsuc m) h = ground arith

pub award_exceeds_iff : (t : Tender) → HasPlainValue t → (award_exceeds t ≡ false) ↔ HasPlainAward t
unfolding award_exceeds
award_exceeds_iff t plain = (
  λ h n m e f. let k = rw (award_exceeds, e, f) at h in ground arith,
  λ h. elim (Option-cases t.estimated_value) [
    | inl e ↦ rw (award_exceeds, e) refl
    | inr (v, e) ↦ elim (Option-cases t.award_value) [
      | inl f ↦ rw (award_exceeds, e, f) refl
      | inr (a, f) ↦
          let (n, q, small) = plain v e in
          rw (award_exceeds, e, f, q)
            (fits_award n a (λ m g. h n m (e ∙ ap some q) (f ∙ ap some g)))
    ]
  ],
)
