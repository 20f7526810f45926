-- ===== src/Storage/Facets/Counts.antt =====
-- The counts are the numbers of the occurrences.
use mathlib.Core.Path.{subst}
use licitaciones_mcp.Base.{
  Any, here, there, ◌⊎◌, Option-cases, take, All-map, All-self, ℕ, suc, ◌+◌, ◌≤◌, ◌≡◌, refl, ap,
  true, false, none, some, List, [], ◌∷◌, All, length, length-take, All-take, inl, inr, Bool-cases,
  arith, if◌then◌else◌, ◌==◌, list_eq, nat_eq, eq_self, Distinct,
}
use licitaciones_mcp.Base.Dict.{
  keys, lookup, lookup-insert, lookup-Any, insert-Distinct, contains-keys,
}
use licitaciones_mcp.Base.Sort.{
  sorted, IsSorted, sorted-All, sorted-Any, take-or_later, sorted-IsSorted, take-IsSorted,
}
use licitaciones_mcp.Base.Text.{Text}
use licitaciones_mcp.Base.Unicode.{Unicode}
use licitaciones_mcp.Core.Models.{Tender}
use licitaciones_mcp.Storage.Facets.{
  Counter, count_or_zero, add_one, count_all, text_le, before_top, top_counter, facet_counts,
  values_of_rows,
}

-- How often a value is in a list.
abbrev pub occurrences : Text → List Text → ℕ
occurrences k [] = 0
occurrences k (v ∷ vs) = (if v == k then 1 else 0) + occurrences k vs

count_at : Text → Counter → ℕ
count_at k counter = count_or_zero (lookup k counter)

own :
    (v k : Text) (counter : Counter)
    → (v == k) ≡ true
    → suc (count_or_zero (lookup v counter)) ≡ 1 + count_at k counter
unfolding count_at
own v k counter same = rw ((list_eq.beq_iff v k).0 same) (omega arith)

count_at-add_one :
    (v k : Text) (counter : Counter)
    → count_at k (add_one v counter) ≡ (if v == k then 1 else 0) + count_at k counter
unfolding count_at add_one
count_at-add_one v k counter = elim (Bool-cases (v == k)) [
  | inl same ↦ rw (lookup-insert v k _ counter, same) (own v k counter same)
  | inr other ↦ rw (lookup-insert v k _ counter, other) (omega arith)
]

-- The count of a value is the number of its occurrences, on top of what was counted before.
count_all_lem :
    (vs : List Text) (k : Text) (counter : Counter)
    → count_at k (count_all vs counter) ≡ occurrences k vs + count_at k counter
unfolding count_all
count_all_lem [] k counter = omega arith
count_all_lem (v ∷ vs) k counter =
    omega (arith, count_all_lem vs k (add_one v counter), count_at-add_one v k counter)

count_all-Distinct :
    (vs : List Text) (counter : Counter)
    → Distinct (keys counter)
    → Distinct (keys (count_all vs counter))
unfolding count_all add_one
count_all-Distinct [] counter d = d
count_all-Distinct (v ∷ vs) counter d =
    count_all-Distinct vs (add_one v counter) (insert-Distinct v _ counter d)

-- In a dict whose keys are distinct, each entry is the one that its key finds.
AllFound : Counter → Counter → Type 0
AllFound whole [] = Unit
AllFound whole ((k, n) ∷ d) = (lookup k whole ≡ some n) × AllFound whole d

found_behind :
    (j : Text) (m : ℕ) (whole d : Counter)
    → lookup j whole ≡ none
    → AllFound whole d
    → AllFound ((j, m) ∷ whole) d
unfolding AllFound lookup
found_behind j m whole [] h a = tt
found_behind j m whole ((k, n) ∷ d) h a = (
  elim (Bool-cases (j == k)) [
    | inl same ↦ absurd (clash (rw⁻¹ ((list_eq.beq_iff j k).0 same) h) a.0)
    | inr other ↦ rw other a.0
  ],
  found_behind j m whole d h a.1,
)
  where
    clash : lookup k whole ≡ none → lookup k whole ≡ some n → ⊥
    clash p q = cc

entries-AllFound : (d : Counter) → Distinct (keys d) → AllFound d d
unfolding AllFound lookup
entries-AllFound [] h = tt
entries-AllFound ((k, n) ∷ d) h =
    (rw (eq_self k) refl, found_behind k n d d ((contains-keys k d).0 h.0) (entries-AllFound d h.1))

module _ (values : List Text) where
  abbrev pub IsCount : Text × ℕ → Type 0
  IsCount (k, n) = n ≡ occurrences k values

  count_of : (k : Text) (n : ℕ) → lookup k (count_all values []) ≡ some n → n ≡ occurrences k values
  unfolding count_at lookup
  count_of k n h =
      let total : count_or_zero (lookup k (count_all values [])) ≡ occurrences k values + 0 =
        count_all_lem values k [] in
      let found : count_or_zero (lookup k (count_all values [])) ≡ n = ap count_or_zero h in
      omega (arith, total, found)

  counted : (d : Counter) → AllFound (count_all values []) d → All IsCount d
  unfolding AllFound
  counted [] h = tt
  counted ((k, n) ∷ d) h = (count_of k n h.0, counted d h.1)

text_le_total : (s t : Text) → text_le s t ≡ false → text_le t s ≡ true
unfolding text_le
text_le_total [] t h = cc
text_le_total (c ∷ s) [] h = refl
text_le_total (c ∷ s) (d ∷ t) h = ground (arith, text_le_total s t)

text_le_trans : (r s t : Text) → text_le r s ≡ true → text_le s t ≡ true → text_le r t ≡ true
unfolding text_le
text_le_trans [] s t h k = refl
text_le_trans (b ∷ r) [] t h k = cc
text_le_trans (b ∷ r) (c ∷ s) [] h k = cc
text_le_trans (b ∷ r) (c ∷ s) (d ∷ t) h k = ground (arith, text_le_trans r s t)

before_top_total : (x y : Text × ℕ) → before_top x y ≡ false → before_top y x ≡ true
unfolding before_top
before_top_total (a, m) (b, n) h = ground (arith, text_le_total a b)

before_top_trans :
    (x y z : Text × ℕ) → before_top x y ≡ true → before_top y z ≡ true → before_top x z ≡ true
unfolding before_top
before_top_trans (a, l) (b, m) (c, n) h k = ground (arith, text_le_trans a b c)

occurrences_some : (v : Text) (vs : List Text) → Any (λ w. w ≡ v) vs → 1 ≤ occurrences v vs
occurrences_some v [] h = elim h [ ]
occurrences_some v (w ∷ vs) (here e) = rw ((list_eq.beq_iff w v).1 e) (omega arith)
occurrences_some v (w ∷ vs) (there h) = omega (arith, occurrences_some v vs h)

before_top_count : (e : Text × ℕ) (v : Text) (m : ℕ) → before_top e (v, m) ≡ true → m ≤ e.1
unfolding before_top
before_top_count (w, n) v m h = ground arith

module _ (values : List Text) where
  -- A value that occurs has an entry with its count.
  found_entry :
      (v : Text)
      → Any (λ w. w ≡ v) values
      → Any (λ e. e ≡ (v, occurrences v values)) (count_all values [])
  unfolding count_at lookup
  found_entry v h = elim (Option-cases (lookup v (count_all values []))) [
    | inl e ↦
        let total : count_or_zero (lookup v (count_all values [])) ≡ occurrences v values + 0 =
          count_all_lem values v [] in
        let none_left : count_or_zero (lookup v (count_all values [])) ≡ 0 = ap count_or_zero e in
        absurd (omega (arith, total, none_left, occurrences_some v values h))
    | inr (n, e) ↦
        subst (λ m. Any (λ x. x ≡ (v, m)) (count_all values [])) (count_of values v n e)
          (lookup-Any v n (count_all values []) e)
  ]

  -- A value is listed with its count, or the list is full, and no value that it lists has a smaller
  -- count, or the same one and a text that comes later.
  abbrev pub IsPlaced : ℕ → List (Text × ℕ) → Text → Type 0
  IsPlaced limit listed v =
      Any (λ e. e ≡ (v, occurrences v values)) listed
      ⊎ ((length listed ≡ limit)
          × All
              (λ e. (occurrences v values ≤ e.1) × (before_top e (v, occurrences v values) ≡ true))
              listed)

  placed :
      (limit : ℕ) (v : Text)
      → Any (λ w. w ≡ v) values
      → IsPlaced limit (take limit (sorted before_top (count_all values []))) v
  placed limit v h =
      let counter = count_all values [] in
      elim (take-or_later before_top limit (sorted before_top counter) (v, occurrences v values)
        (sorted-IsSorted before_top before_top_total before_top_trans counter)
        (sorted-Any before_top (λ e. e ≡ (v, occurrences v values)) counter (found_entry v h))) [
          | inl listed ↦ inl listed
          | inr (full, all) ↦
              inr (full, All-map (λ e b. (before_top_count e v (occurrences v values) b, b)) _ all)
        ]

-- A facet lists at most as many values as the limit, the most frequent first and equal counts in the
-- order of the texts; each count is the number of times that the rows have the value; and each value
-- that the rows have is listed, or the list is as long as the limit and no value that it lists is
-- less frequent, or as frequent with a text that comes later.
pub facet_counts_lem :
    (U : Unicode) (facet : Text) (rows : List Tender) (limit : ℕ)
    → let listed = facet_counts U facet rows limit in
      (length listed ≤ limit)
      × IsSorted before_top listed
      × All (IsCount (values_of_rows U facet rows)) listed
      × All (IsPlaced (values_of_rows U facet rows) limit listed) (values_of_rows U facet rows)
unfolding facet_counts top_counter
facet_counts_lem U facet rows limit =
    let values = values_of_rows U facet rows in
    let counter = count_all values [] in
    (
      omega (arith, length-take limit (sorted before_top counter)),
      take-IsSorted before_top limit (sorted before_top counter)
          (sorted-IsSorted before_top before_top_total before_top_trans counter),
      All-take (IsCount values) limit (sorted before_top counter) (
          sorted-All before_top (IsCount values) counter
            (counted values counter (entries-AllFound counter (count_all-Distinct values [] tt)))),
      All-map (λ v h. placed values limit v h) values (All-self values),
    )
