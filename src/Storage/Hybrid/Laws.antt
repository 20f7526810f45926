-- ===== src/Storage/Hybrid/Laws.antt =====
-- The fusion of `hybrid_search`: each tender once, none lost, and each with a score.
use licitaciones_mcp.Base.{
  ℕ, suc, ◌≡◌, refl, sym, ap, ◌∙◌, inl, inr, Bool, true, ◌||◌, none, some, List, [], ◌∷◌, map,
  arith, Option-cases, Bool-cases, list_eq, nat_eq, contains, Distinct, ◌==◌, ◌≤◌, All, All-keep,
  length,
}
use licitaciones_mcp.Base.Dict.{
  Dict, keys, lookup, insert, contains-keys-insert, insert-Distinct, AllEntries, insert-AllEntries,
  contains-keys,
}
use licitaciones_mcp.Base.Frac.{Frac}
use licitaciones_mcp.Base.Text.{Text, text_iff}
use licitaciones_mcp.Base.Sort.{sorted}
use licitaciones_mcp.Base.Unicode.{Unicode}
use licitaciones_mcp.Core.Models.{Tender, TenderFilters, TenderSearchResult}
use licitaciones_mcp.Core.Scoring.{tender_matches_filters}
use licitaciones_mcp.Storage.Retrieval.Laws.{
  slice_retrieval_results-All, length-slice_retrieval_results,
}
use licitaciones_mcp.Storage.Hybrid.{
  Fusion, empty_fusion, fusion_key, bump, set_default, fuse_keyword, fuse_semantic, fuse,
  fused_result, fused_results, before_fused, hybrid_page, values,
}

-- The tables of the fusion: one entry for each key, which is the key of its tender, and a score
-- for each entry.
pub record IsFusion (fusion : Fusion) : Type 0 where
  pub once : Distinct (keys fusion.tenders)
  pub own_key : AllEntries (λ k t. fusion_key t ≡ k) fusion.tenders
  pub scored : (k : Text) → contains (keys fusion.rrf) k ≡ contains (keys fusion.tenders) k

empty-IsFusion : IsFusion empty_fusion
unfolding contains
empty-IsFusion = record { once = tt; own_key = tt; scored = λ k. refl }

set_default_new :
    (key : Text) (t : Tender) (d : Dict Text Tender)
    → lookup key d ≡ none
    → set_default key t d ≡ insert key t d
unfolding set_default
set_default_new key t d e = rw (e, set_default)

set_default_old :
    (key : Text) (t : Tender) (d : Dict Text Tender) {old : Tender}
    → lookup key d ≡ some old
    → set_default key t d ≡ d
unfolding set_default
set_default_old key t d e = rw (e, set_default)

already :
    (key k : Text) (d : Dict Text Tender)
    → contains (keys d) key ≡ true
    → contains (keys d) k ≡ (key == k || contains (keys d) k)
already key k d h = ground (arith, text_iff key k)

listed_key :
    (key : Text) (d : Dict Text Tender) {old : Tender}
    → lookup key d ≡ some old
    → contains (keys d) key ≡ true
listed_key key d e = elim (Bool-cases (contains (keys d) key)) [
  | inl listed ↦ listed
  | inr absent ↦ let n : lookup key d ≡ none = (contains-keys key d).0 absent in cc
]

contains-set_default :
    (key k : Text) (t : Tender) (d : Dict Text Tender)
    → contains (keys (set_default key t d)) k ≡ (key == k || contains (keys d) k)
contains-set_default key k t d = elim (Option-cases (lookup key d)) [
  | inl e ↦ rw (set_default_new key t d e) (contains-keys-insert key k t d)
  | inr (old, e) ↦ rw (set_default_old key t d e) (already key k d (listed_key key d e))
]

set_default-Distinct :
    (key : Text) (t : Tender) (d : Dict Text Tender)
    → Distinct (keys d)
    → Distinct (keys (set_default key t d))
set_default-Distinct key t d h = elim (Option-cases (lookup key d)) [
  | inl e ↦ rw (set_default_new key t d e) (insert-Distinct key t d h)
  | inr (old, e) ↦ rw (set_default_old key t d e) h
]

set_default-own_key :
    (t : Tender) (d : Dict Text Tender)
    → AllEntries (λ k t. fusion_key t ≡ k) d
    → AllEntries (λ k t. fusion_key t ≡ k) (set_default (fusion_key t) t d)
set_default-own_key t d h = elim (Option-cases (lookup (fusion_key t) d)) [
  | inl e ↦
      rw (set_default_new (fusion_key t) t d e)
        (insert-AllEntries (λ k t'. fusion_key t' ≡ k) (fusion_key t) t d refl h)
  | inr (old, e) ↦ rw (set_default_old (fusion_key t) t d e) h
]

contains-bump :
    (rrf_k rank : ℕ) (key k : Text) (d : Dict Text Frac)
    → contains (keys (bump rrf_k rank key d)) k ≡ (key == k || contains (keys d) k)
unfolding bump
contains-bump rrf_k rank key k d = contains-keys-insert key k _ d

regroup : (key k : Text) (a b : Bool) → (a || (key == k || b)) ≡ ((k == key || a) || b)
regroup key k a b = ground (arith, text_iff key k, text_iff k key)

no_key : (a b : Bool) (k : Text) → (a || (b || contains [] k)) ≡ (a || b)
unfolding contains
no_key a b k = ground arith

module _ (rrf_k : ℕ) where
  fuse_keyword-IsFusion :
      (rank : ℕ) (rs : List TenderSearchResult) (fusion : Fusion)
      → IsFusion fusion
      → IsFusion (fuse_keyword rrf_k rank rs fusion)
  unfolding fuse_keyword
  fuse_keyword-IsFusion rank [] fusion v = v
  fuse_keyword-IsFusion rank (r ∷ rs) fusion v =
      let key = fusion_key r.tender in
      fuse_keyword-IsFusion (suc rank) rs _ (record {
        once = insert-Distinct key r.tender fusion.tenders v.once;
        own_key = insert-AllEntries _ key r.tender fusion.tenders refl v.own_key;
        scored = λ k.
            contains-bump rrf_k rank key k fusion.rrf
            ∙ ap (λ b. key == k || b) (v.scored k)
            ∙ sym (contains-keys-insert key k r.tender fusion.tenders);
      })

  fuse_semantic-IsFusion :
      (rank : ℕ) (ts : List Tender) (fusion : Fusion)
      → IsFusion fusion
      → IsFusion (fuse_semantic rrf_k rank ts fusion)
  unfolding fuse_semantic
  fuse_semantic-IsFusion rank [] fusion v = v
  fuse_semantic-IsFusion rank (t ∷ ts) fusion v =
      let key = fusion_key t in
      fuse_semantic-IsFusion (suc rank) ts _ (record {
        once = set_default-Distinct key t fusion.tenders v.once;
        own_key = set_default-own_key t fusion.tenders v.own_key;
        scored = λ k.
            contains-bump rrf_k rank key k fusion.rrf
            ∙ ap (λ b. key == k || b) (v.scored k)
            ∙ sym (contains-set_default key k t fusion.tenders);
      })

  fuse_keyword-keys :
      (rank : ℕ) (rs : List TenderSearchResult) (fusion : Fusion) (k : Text)
      → contains (keys (fuse_keyword rrf_k rank rs fusion).tenders) k
        ≡ (contains (map (λ r. fusion_key r.tender) rs) k || contains (keys fusion.tenders) k)
  unfolding fuse_keyword contains
  fuse_keyword-keys rank [] fusion k = refl
  fuse_keyword-keys rank (r ∷ rs) fusion k =
      fuse_keyword-keys (suc rank) rs _ k
      ∙ rw (contains-keys-insert (fusion_key r.tender) k r.tender fusion.tenders)
          (regroup (fusion_key r.tender) k _ _)

  fuse_semantic-keys :
      (rank : ℕ) (ts : List Tender) (fusion : Fusion) (k : Text)
      → contains (keys (fuse_semantic rrf_k rank ts fusion).tenders) k
        ≡ (contains (map fusion_key ts) k || contains (keys fusion.tenders) k)
  unfolding fuse_semantic contains
  fuse_semantic-keys rank [] fusion k = refl
  fuse_semantic-keys rank (t ∷ ts) fusion k =
      fuse_semantic-keys (suc rank) ts _ k
      ∙ rw (contains-set_default (fusion_key t) k t fusion.tenders) (regroup (fusion_key t) k _ _)

  -- The fusion holds each tender under its own key, once, with a score, and the keys are exactly
  -- those of the two retrieved lists.
  pub fuse_lem :
      (keyword : List TenderSearchResult) (semantic : List Tender)
      → IsFusion (fuse rrf_k keyword semantic)
        × ((k : Text)
            → contains (keys (fuse rrf_k keyword semantic).tenders) k ≡ (
                contains (map fusion_key semantic) k
                || contains (map (λ r. fusion_key r.tender) keyword) k))
  unfolding fuse
  fuse_lem keyword semantic = (
    fuse_semantic-IsFusion 1 semantic _
        (fuse_keyword-IsFusion 1 keyword empty_fusion empty-IsFusion),
    λ k.
        fuse_semantic-keys 1 semantic _ k
        ∙ rw (fuse_keyword-keys 1 keyword empty_fusion k) (no_key _ _ k),
  )

module _ (U : Unicode) where
  abbrev pub IsMatching : TenderFilters → TenderSearchResult → Type 0
  IsMatching f r = tender_matches_filters U r.tender f ≡ true

  mapped-IsMatching :
      (f : TenderFilters) (fusion : Fusion) (ts : List Tender)
      → All (λ t. tender_matches_filters U t f ≡ true) ts
      → All (IsMatching f) (map (fused_result U fusion) ts)
  unfolding fused_result
  mapped-IsMatching f fusion [] h = tt
  mapped-IsMatching f fusion (t ∷ ts) h = (h.0, mapped-IsMatching f fusion ts h.1)

  -- A fused page is no longer than the limit, and the filter function accepts its results.
  pub hybrid_page-IsMatching :
      (rrf_k : ℕ) (keyword : List TenderSearchResult) (semantic : List Tender) (f : TenderFilters)
      → let page = hybrid_page U rrf_k keyword semantic f in
        (length page ≤ f.limit) × All (IsMatching f) page
  unfolding hybrid_page fused_results
  hybrid_page-IsMatching rrf_k keyword semantic f =
      let fusion = fuse rrf_k keyword semantic in
      (
        length-slice_retrieval_results (fused_results U fusion f) f,
        slice_retrieval_results-All (IsMatching f) (fused_results U fusion f) f (
            mapped-IsMatching f fusion _ (
              All-keep (λ t. tender_matches_filters U t f)
                (sorted (before_fused U fusion) (values fusion.tenders)))),
      )
