-- ===== src/Storage/Upsert/Merge.antt =====
-- The merge of the issues of a stored tender.
use licitaciones_mcp.Base.{
  ◌≡◌, refl, sym, true, ◌||◌, Option, List, [], ◌∷◌, ◌++◌, map, All, arith, list_eq, nat_eq,
  option_eq, eq_self, Bool-cases, inl, inr,
}
use licitaciones_mcp.Base.Text.{Text}
use licitaciones_mcp.Core.Models.{TenderQualityIssue}
use licitaciones_mcp.Storage.Upsert.{is_seen, issue_key, merge_from, merge_quality_issues}

seen_self :
    (i : TenderQualityIssue) (seen : List (Text × Option Text))
    → is_seen (issue_key i ∷ seen) i ≡ true
unfolding is_seen
seen_self i seen = rw (eq_self i.code, eq_self i.field) refl

seen-append :
    (m : List TenderQualityIssue) (j i : TenderQualityIssue)
    → is_seen (map issue_key (m ++ j ∷ [])) i
      ≡ (is_seen (map issue_key m) i || is_seen (issue_key j ∷ []) i)
unfolding is_seen
seen-append [] j i = refl
seen-append (k ∷ m) j i = rw (seen-append m j i) (ground arith)

seen_earlier :
    (m : List TenderQualityIssue) (j i : TenderQualityIssue)
    → is_seen (map issue_key m) i ≡ true
    → is_seen (map issue_key (m ++ j ∷ [])) i ≡ true
seen_earlier m j i h = rw (seen-append m j i, h) refl

seen_added :
    (m : List TenderQualityIssue) (j : TenderQualityIssue)
    → is_seen (map issue_key (m ++ j ∷ [])) j ≡ true
seen_added m j = rw (seen-append m j j, seen_self j []) (ground arith)

-- What is marked as seen stands in the list.
abbrev Covers : List TenderQualityIssue → List (Text × Option Text) → Type 0
Covers m seen =
    (i : TenderQualityIssue) → is_seen seen i ≡ true → is_seen (map issue_key m) i ≡ true

Covers-added :
    (m : List TenderQualityIssue) (seen : List (Text × Option Text)) (j : TenderQualityIssue)
    → Covers m seen
    → Covers (m ++ j ∷ []) (issue_key j ∷ seen)
unfolding is_seen
Covers-added m seen j c i h = rw (seen-append m j i) (ground (arith, h, c i))

merge_keeps :
    (m : List TenderQualityIssue) (seen : List (Text × Option Text)) (g : List TenderQualityIssue)
    (i : TenderQualityIssue)
    → is_seen (map issue_key m) i ≡ true
    → is_seen (map issue_key (merge_from m seen g)) i ≡ true
unfolding merge_from
merge_keeps m seen [] i h = h
merge_keeps m seen (j ∷ g) i h = elim (Bool-cases (is_seen seen j)) [
  | inl e ↦ rw e (merge_keeps m seen g i h)
  | inr e ↦ rw e (merge_keeps (m ++ j ∷ []) (issue_key j ∷ seen) g i (seen_earlier m j i h))
]

merge-Covers :
    (m : List TenderQualityIssue) (seen : List (Text × Option Text)) (g r : List TenderQualityIssue)
    → Covers m seen
    → merge_from m seen g ≡ r
    → All (λ i. is_seen (map issue_key r) i ≡ true) g
unfolding merge_from
merge-Covers m seen [] r c f = tt
merge-Covers m seen (j ∷ g) r c f = elim (Bool-cases (is_seen seen j)) [
  | inl e ↦
      let f' : merge_from m seen g ≡ r = rw e at f in
      (rw (sym f') (merge_keeps m seen g j (c j e)), merge-Covers m seen g r c f')
  | inr e ↦
      let f' : merge_from (m ++ j ∷ []) (issue_key j ∷ seen) g ≡ r = rw e at f in
      (
        rw (sym f') (merge_keeps (m ++ j ∷ []) (issue_key j ∷ seen) g j (seen_added m j)),
        merge-Covers (m ++ j ∷ []) (issue_key j ∷ seen) g r (Covers-added m seen j c) f',
      )
]

merge_nothing :
    (m : List TenderQualityIssue) (seen : List (Text × Option Text)) (g : List TenderQualityIssue)
    → All (λ i. is_seen seen i ≡ true) g
    → merge_from m seen g ≡ m
unfolding merge_from
merge_nothing m seen [] h = refl
merge_nothing m seen (j ∷ g) h = rw h.0 (merge_nothing m seen g h.1)

-- Merging the issues of the same validation a second time adds nothing.
pub merge_quality_issues_idem :
    (existing generated : List TenderQualityIssue)
    → merge_quality_issues (merge_quality_issues existing generated) generated
      ≡ merge_quality_issues existing generated
unfolding merge_quality_issues
merge_quality_issues_idem existing generated =
    merge_nothing _ _ generated
      (merge-Covers existing (map issue_key existing) generated _ (λ i h. h) refl)
