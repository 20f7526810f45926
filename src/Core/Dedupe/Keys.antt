-- ===== src/Core/Dedupe/Keys.antt =====
-- The key of a tender is its own once it is set, and two tenders of the sources share it only if
-- they are the same notice.
use licitaciones_mcp.Base.{
  ℕ, ◌≡◌, refl, sym, ap, true, false, ◌++◌, non_empty, Bool-cases, inl, inr,
}
use licitaciones_mcp.Base.Text.{Text, codes, starts_with}
use licitaciones_mcp.Base.Unicode.{Unicode}
use licitaciones_mcp.Core.Models.{Tender, TenderSource, placsp, ted, source_value}
use licitaciones_mcp.Core.Scoring.{given}
use licitaciones_mcp.Core.Dedupe.{build_dedupe_key, attach_dedupe_key}

apart : true ≡ false → ⊥
apart h = absurd (cc)

source_value-non_empty : (s : TenderSource) (x : Text) → non_empty (source_value s ++ x) ≡ true
unfolding source_value
source_value-non_empty placsp x = refl
source_value-non_empty ted x = refl

prefix_cancel :
    (s t : TenderSource) (x y : Text)
    → (source_value s ++ (codes ":" ++ x)) ≡ (source_value t ++ (codes ":" ++ y))
    → (s ≡ t) × (x ≡ y)
unfolding source_value starts_with
prefix_cancel placsp placsp x y h = (refl, cc)
prefix_cancel placsp ted x y h = absurd (apart (ap (λ s. starts_with s (codes "p")) h))
prefix_cancel ted placsp x y h = absurd (apart (sym (ap (λ s. starts_with s (codes "p")) h)))
prefix_cancel ted ted x y h = (refl, cc)

module _ (U : Unicode) (sha256 : Text → Text) (iso_date : ℕ → Text) where
  build_dedupe_key-non_empty :
      (t : Tender) → non_empty (build_dedupe_key U sha256 iso_date t) ≡ true
  unfolding build_dedupe_key
  build_dedupe_key-non_empty t = elim (Bool-cases (non_empty t.external_id)) [
    | inl e ↦ rw e (source_value-non_empty t.source _)
    | inr e ↦ rw e refl
  ]

  -- Setting the key of a tender whose key is set changes nothing.
  pub attach_dedupe_key_idem :
      (t : Tender)
      → attach_dedupe_key U sha256 iso_date (attach_dedupe_key U sha256 iso_date t)
        ≡ attach_dedupe_key U sha256 iso_date t
  unfolding attach_dedupe_key build_dedupe_key
  attach_dedupe_key_idem t = elim (Bool-cases (given t.dedupe_key)) [
    | inl e ↦ rw e (rw e refl)
    | inr e ↦ rw e (rw (build_dedupe_key-non_empty t) refl)
  ]

  -- Two tenders that have an external id get one key only if source and external id are the same.
  pub build_dedupe_key_injective :
      (s t : Tender)
      → non_empty s.external_id ≡ true
      → non_empty t.external_id ≡ true
      → build_dedupe_key U sha256 iso_date s ≡ build_dedupe_key U sha256 iso_date t
      → (s.source ≡ t.source) × (s.external_id ≡ t.external_id)
  unfolding build_dedupe_key
  build_dedupe_key_injective s t hs ht e =
      prefix_cancel s.source t.source s.external_id t.external_id (rw (hs, ht) at e)
