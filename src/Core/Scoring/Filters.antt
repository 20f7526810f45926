-- ===== src/Core/Scoring/Filters.antt =====
-- `tender_matches_filters` of core/scoring.py decides a conjunction of constraints, one for each
-- filter that is given.
use licitaciones_mcp.Base.{
  ℕ, ◌≤◌, ◌≡◌, refl, ◌↔◌, Bool, true, false, not, ◌&&◌, ◌||◌, Option, none, some, List, map, take,
  any, Any, any-true, any_of, arith, ◌==◌, list_eq, nat_eq, non_empty, if◌then◌else◌, contains,
  &&-true,
}
use licitaciones_mcp.Base.Int.{ℤ, lt_ℤ, le_ℤ}
use licitaciones_mcp.Base.Text.{Text, text_iff, starts_with, occurs_in}
use licitaciones_mcp.Base.Unicode.{Unicode}
use licitaciones_mcp.Core.Models.{
  Tender, TenderFilters, open_, DateTime, or_empty, source_eq, status_eq,
}
use licitaciones_mcp.Core.Normalization.{
  fold_text, normalize_cpv_codes, normalize_cpv_prefixes, listed,
}
use licitaciones_mcp.Core.Scoring.{
  given, wanted_nuts, text_field_matches, buyer_filters, dataset_kind, rejected_by_class,
  rejected_by_codes, rejected_by_texts, rejected_by_types, rejected_by_ranges, earlier_than,
  later_than, below, above, cpv_overlaps, cpv_prefix_overlaps, tender_matches_filters,
}
use licitaciones_mcp.Core.Scoring.Cpv.{SomePair, cpv_overlaps_iff}

-- An optional bound, if it is given, is met by a value that is there.
abbrev Bounded {ℓ} : {B A : Type ℓ} → (B → A → Type 0) → Option B → Option A → Type ℓ
Bounded {B} {A} R bound value = (b : B) → bound ≡ some b → (a : A) × (value ≡ some a) × R b a

earlier_than_iff :
    (bound : Option ℕ) (moment : Option DateTime)
    → (earlier_than bound moment ≡ false) ↔ Bounded (λ d at. d ≤ at.date) bound moment
unfolding earlier_than
earlier_than_iff none moment = (λ h b e. absurd (cc), λ h. refl)
earlier_than_iff (some day) none = (λ h. absurd (cc), λ h. let m = h day refl in absurd (cc (m.1)))
earlier_than_iff (some day) (some at) =
    (λ h b e. (at, refl, ground arith), λ h. let m = h day refl in ground (arith, m.1, m.2))

later_than_iff :
    (bound : Option ℕ) (moment : Option DateTime)
    → (later_than bound moment ≡ false) ↔ Bounded (λ d at. at.date ≤ d) bound moment
unfolding later_than
later_than_iff none moment = (λ h b e. absurd (cc), λ h. refl)
later_than_iff (some day) none = (λ h. absurd (cc), λ h. let m = h day refl in absurd (cc (m.1)))
later_than_iff (some day) (some at) =
    (λ h b e. (at, refl, ground arith), λ h. let m = h day refl in ground (arith, m.1, m.2))

not_below : (a b : ℤ) → (lt_ℤ a b ≡ false) ↔ (le_ℤ b a ≡ true)
not_below a b = (λ h. ground arith, λ h. ground arith)

below_iff :
    (bound value : Option ℤ)
    → (below bound value ≡ false) ↔ Bounded (λ b v. le_ℤ b v ≡ true) bound value
unfolding below
below_iff none value = (λ h b e. absurd (cc), λ h. refl)
below_iff (some b) none = (λ h. absurd (cc), λ h. let m = h b refl in absurd (cc (m.1)))
below_iff (some b) (some v) = (
  λ h c e. (v, refl, ground (arith, (not_below v b).0 h)),
  λ h. let m = h b refl in (not_below v b).1 (ground (arith, m.1, m.2)),
)

above_iff :
    (bound value : Option ℤ)
    → (above bound value ≡ false) ↔ Bounded (λ b v. le_ℤ v b ≡ true) bound value
unfolding above
above_iff none value = (λ h b e. absurd (cc), λ h. refl)
above_iff (some b) none = (λ h. absurd (cc), λ h. let m = h b refl in absurd (cc (m.1)))
above_iff (some b) (some v) = (
  λ h c e. (v, refl, ground (arith, (not_below b v).0 h)),
  λ h. let m = h b refl in (not_below b v).1 (ground (arith, m.1, m.2)),
)

-- A guard `if wanted and not ok: return False`.
guard_iff : (wanted ok : Bool) → ((wanted && not ok) ≡ false) ↔ (wanted ≡ true → ok ≡ true)
guard_iff wanted ok = (λ h w. ground arith, λ h. ground arith)

any_iff {ℓ} :
    {A : Type ℓ} (p : A → Bool) (xs : List A) → (any p xs ≡ true) ↔ Any (λ x. p x ≡ true) xs
any_iff p xs = (any-true p xs, any_of p xs)

-- A row of early returns.
five_guards :
    (a b c d e : Bool)
    → ((if a then false else if b then false else if c then false else if d then false else not e)
        ≡ true)
      ↔ ((a ≡ false) × (b ≡ false) × (c ≡ false) × (d ≡ false) × (e ≡ false))
five_guards a b c d e =
    (λ h. (ground arith, ground arith, ground arith, ground arith, ground arith), λ h. ground arith)

module _ (U : Unicode) where
  -- The text of a field, folded, is one of the wanted texts, folded, and is not empty.
  abbrev IsOneOf : Option Text → List Text → Type 0
  IsOneOf value wanted =
      (non_empty (fold_text U value) ≡ true)
      × Any (λ item. (fold_text U (some item) == fold_text U value) ≡ true) wanted

  -- What the filters ask of a tender. Each clause speaks only where its filter is given.
  pub record IsMatch (t : Tender) (f : TenderFilters) : Type 0 where
    pub open_only : f.only_open ≡ true → t.status ≡ open_
    pub in_statuses : non_empty f.statuses ≡ true → contains f.statuses t.status ≡ true
    pub in_sources : non_empty f.sources ≡ true → contains f.sources t.source ≡ true
    pub in_country : given f.country ≡ true → U.upper t.country ≡ or_empty f.country
    pub in_cpvs :
        non_empty (normalize_cpv_codes U (listed f.cpv_codes)) ≡ true
        → SomePair
            (λ c w. take 2 c ≡ take 2 w)
            t.cpv_codes
            (normalize_cpv_codes U (listed f.cpv_codes))
    pub in_prefixes :
        non_empty (normalize_cpv_prefixes U (listed f.cpv_prefixes)) ≡ true
        → cpv_prefix_overlaps t.cpv_codes (normalize_cpv_prefixes U (listed f.cpv_prefixes)) ≡ true
    pub in_nuts :
        non_empty (wanted_nuts U f.nuts_codes) ≡ true
        → Any
            (λ code.
              any (starts_with (fold_text U (some code))) (wanted_nuts U f.nuts_codes) ≡ true)
            t.nuts_codes
    pub in_regions :
        non_empty f.regions ≡ true
        → Any
            (λ r.
              (occurs_in (fold_text U (some r)) (fold_text U t.region)
                || occurs_in (fold_text U t.region) (fold_text U (some r)))
              ≡ true)
            f.regions
    pub of_buyers :
        non_empty (buyer_filters U f) ≡ true
        → Any
            (λ name. occurs_in (fold_text U (some name)) (fold_text U t.buyer_name) ≡ true)
            (buyer_filters U f)
    pub of_procedure :
        non_empty f.procedure_types ≡ true → IsOneOf t.procedure_type f.procedure_types
    pub of_contract : non_empty f.contract_types ≡ true → IsOneOf t.contract_type f.contract_types
    pub of_notice : non_empty f.notice_types ≡ true → IsOneOf t.notice_type f.notice_types
    pub of_dataset :
        non_empty f.dataset_kinds ≡ true
        → (non_empty (dataset_kind U t) ≡ true)
          × (contains (map (λ k. fold_text U (some k)) f.dataset_kinds) (dataset_kind U t) ≡ true)
    pub published_after : Bounded (λ d at. d ≤ at.date) f.published_from t.published_at
    pub published_before : Bounded (λ d at. at.date ≤ d) f.published_to t.published_at
    pub deadline_after : Bounded (λ d at. d ≤ at.date) f.deadline_from t.deadline_at
    pub deadline_before : Bounded (λ d at. at.date ≤ d) f.deadline_to t.deadline_at
    pub at_least : Bounded (λ b v. le_ℤ b v ≡ true) f.min_value t.estimated_value
    pub at_most : Bounded (λ b v. le_ℤ v b ≡ true) f.max_value t.estimated_value

  text_field_iff :
      (value : Option Text) (wanted : List Text)
      → (text_field_matches U value wanted ≡ true) ↔ IsOneOf value wanted
  unfolding text_field_matches
  text_field_iff value wanted = (
    λ h. let (a, b) = &&-true _ _ h in (a, any-true _ wanted b),
    λ h. rw (h.0, any_of (λ item. fold_text U (some item) == fold_text U value) wanted h.1),
  )

  module _ (t : Tender) (f : TenderFilters) where
    class_iff : (rejected_by_class U t f ≡ false) ↔ (
        (f.only_open ≡ true → t.status ≡ open_)
        × (non_empty f.statuses ≡ true → contains f.statuses t.status ≡ true)
        × (non_empty f.sources ≡ true → contains f.sources t.source ≡ true)
        × (given f.country ≡ true → U.upper t.country ≡ or_empty f.country))
    unfolding rejected_by_class
    class_iff =
        let one = status_eq.beq_iff t.status open_ in
        let two = text_iff (U.upper t.country) (or_empty f.country) in
        (
          λ h. (
            λ w. ground (arith, one),
            λ w. ground arith,
            λ w. ground arith,
            λ w. ground (arith, two),
          ),
          λ (a, b, c, d). ground (arith, one, two, a, b, c, d),
        )

    codes_iff : (rejected_by_codes U t f ≡ false) ↔ (
        (non_empty (normalize_cpv_codes U (listed f.cpv_codes)) ≡ true
          → cpv_overlaps t.cpv_codes (normalize_cpv_codes U (listed f.cpv_codes)) ≡ true)
        × (non_empty (normalize_cpv_prefixes U (listed f.cpv_prefixes)) ≡ true
            → cpv_prefix_overlaps t.cpv_codes (normalize_cpv_prefixes U (listed f.cpv_prefixes))
              ≡ true)
        × (non_empty (wanted_nuts U f.nuts_codes) ≡ true
            → any
                (λ code. any (starts_with (fold_text U (some code))) (wanted_nuts U f.nuts_codes))
                t.nuts_codes
              ≡ true))
    unfolding rejected_by_codes
    codes_iff = (
      λ h. (λ w. ground arith, λ w. ground arith, λ w. ground arith),
      λ (a, b, c). ground (arith, a, b, c),
    )

    texts_iff : (rejected_by_texts U t f ≡ false) ↔ (
        (non_empty f.regions ≡ true
          → any
              (λ r.
                occurs_in (fold_text U (some r)) (fold_text U t.region)
                || occurs_in (fold_text U t.region) (fold_text U (some r)))
              f.regions
            ≡ true)
        × (non_empty (buyer_filters U f) ≡ true
            → any
                (λ name. occurs_in (fold_text U (some name)) (fold_text U t.buyer_name))
                (buyer_filters U f)
              ≡ true))
    unfolding rejected_by_texts
    texts_iff = (λ h. (λ w. ground arith, λ w. ground arith), λ (a, b). ground (arith, a, b))

    types_iff : (rejected_by_types U t f ≡ false) ↔ (
        (non_empty f.procedure_types ≡ true
          → text_field_matches U t.procedure_type f.procedure_types ≡ true)
        × (non_empty f.contract_types ≡ true
            → text_field_matches U t.contract_type f.contract_types ≡ true)
        × (non_empty f.notice_types ≡ true
            → text_field_matches U t.notice_type f.notice_types ≡ true)
        × (non_empty f.dataset_kinds ≡ true
            → (non_empty (dataset_kind U t) ≡ true)
              × (contains (map (λ k. fold_text U (some k)) f.dataset_kinds) (dataset_kind U t)
                  ≡ true)))
    unfolding rejected_by_types
    types_iff = (
      λ h. (
        λ w. ground arith,
        λ w. ground arith,
        λ w. ground arith,
        λ w. (ground arith, ground arith),
      ),
      λ (a, b, c, d). ground (arith, a, b, c, d),
    )

    ranges_iff : (rejected_by_ranges U t f ≡ false) ↔ (
        (earlier_than f.published_from t.published_at ≡ false)
        × (later_than f.published_to t.published_at ≡ false)
        × (earlier_than f.deadline_from t.deadline_at ≡ false)
        × (later_than f.deadline_to t.deadline_at ≡ false)
        × (below f.min_value t.estimated_value ≡ false)
        × (above f.max_value t.estimated_value ≡ false))
    unfolding rejected_by_ranges
    ranges_iff = (
      λ h. (ground arith, ground arith, ground arith, ground arith, ground arith, ground arith),
      λ h. ground arith,
    )

    no_rejection : (tender_matches_filters U t f ≡ true) ↔ (
        (rejected_by_class U t f ≡ false)
        × (rejected_by_codes U t f ≡ false)
        × (rejected_by_texts U t f ≡ false)
        × (rejected_by_types U t f ≡ false)
        × (rejected_by_ranges U t f ≡ false))
    unfolding tender_matches_filters
    no_rejection = five_guards _ _ _ _ _

    sound : tender_matches_filters U t f ≡ true → IsMatch t f
    sound h =
        let (h1, h2, h3, h4, h5) = no_rejection.0 h in
        let (c1, c2, c3, c4) = class_iff.0 h1 in
        let (d1, d2, d3) = codes_iff.0 h2 in
        let (t1, t2) = texts_iff.0 h3 in
        let (k1, k2, k3, k4) = types_iff.0 h4 in
        let (r1, r2, r3, r4, r5, r6) = ranges_iff.0 h5 in
        record {
          open_only = c1;
          in_statuses = c2;
          in_sources = c3;
          in_country = c4;
          in_cpvs = λ w. (cpv_overlaps_iff _ _).0.0 (d1 w);
          in_prefixes = d2;
          in_nuts = λ w. any-true _ t.nuts_codes (d3 w);
          in_regions = λ w. any-true _ f.regions (t1 w);
          of_buyers = λ w. any-true _ (buyer_filters U f) (t2 w);
          of_procedure = λ w. (text_field_iff _ _).0 (k1 w);
          of_contract = λ w. (text_field_iff _ _).0 (k2 w);
          of_notice = λ w. (text_field_iff _ _).0 (k3 w);
          of_dataset = k4;
          published_after = (earlier_than_iff _ _).0 r1;
          published_before = (later_than_iff _ _).0 r2;
          deadline_after = (earlier_than_iff _ _).0 r3;
          deadline_before = (later_than_iff _ _).0 r4;
          at_least = (below_iff _ _).0 r5;
          at_most = (above_iff _ _).0 r6;
        }

    complete : IsMatch t f → tender_matches_filters U t f ≡ true
    complete m = no_rejection.1 (
      class_iff.1 (m.open_only, m.in_statuses, m.in_sources, m.in_country),
      codes_iff.1 (
        λ w. (cpv_overlaps_iff _ _).0.1 (m.in_cpvs w),
        m.in_prefixes,
        λ w. any_of _ t.nuts_codes (m.in_nuts w),
      ),
      texts_iff.1 (
        λ w. any_of _ f.regions (m.in_regions w),
        λ w. any_of _ (buyer_filters U f) (m.of_buyers w),
      ),
      types_iff.1 (
        λ w. (text_field_iff _ _).1 (m.of_procedure w),
        λ w. (text_field_iff _ _).1 (m.of_contract w),
        λ w. (text_field_iff _ _).1 (m.of_notice w),
        m.of_dataset,
      ),
      ranges_iff.1 (
        (earlier_than_iff _ _).1 m.published_after,
        (later_than_iff _ _).1 m.published_before,
        (earlier_than_iff _ _).1 m.deadline_after,
        (later_than_iff _ _).1 m.deadline_before,
        (below_iff _ _).1 m.at_least,
        (above_iff _ _).1 m.at_most,
      ),
    )

  -- `tender_matches_filters` accepts a tender exactly when it meets every filter that is given: a
  -- code of a wanted two-digit CPV division, a bound that a present value meets, and so on.
  pub tender_matches_filters_iff :
      (t : Tender) (f : TenderFilters) → (tender_matches_filters U t f ≡ true) ↔ IsMatch t f
  tender_matches_filters_iff t f = (sound t f, complete t f)
