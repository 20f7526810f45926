-- ===== src/Tests/CoreTests.antt =====
-- core/ at concrete inputs.
use licitaciones_mcp.Base.{
  ◌+◌, ◌≤◌, ◌≡◌, refl, ◌↔◌, true, some, [], ◌∷◌, ◌++◌, map, keep, All, length, take, drop, any,
  contains, Distinct, list_eq, nat_eq, option_eq, ◌==◌,
}
use licitaciones_mcp.Base.Dict.{lookup}
use licitaciones_mcp.Base.Result.{ok}
use licitaciones_mcp.Base.Sort.{IsSorted}
use licitaciones_mcp.Base.Text.{Text, codes, split, join, is_space}
use mathlib.Core.List.{Perm}
use licitaciones_mcp.Base.Unicode.{ascii_only, ascii_only-IsUnicode}
use licitaciones_mcp.Core.Models.{source_id, by_score, desc}
use licitaciones_mcp.Core.Normalization.{
  normalize_text, normalize_cpv_code, normalize_cpv_codes, raw_values, joined,
}
use licitaciones_mcp.Core.Normalization.Texts.{IsSpaced, normalize_text_words}
use licitaciones_mcp.Core.Normalization.Codes.{IsCpv}
use licitaciones_mcp.Core.Normalization.CpvCodes.{normalize_cpv_codes_lem}
use licitaciones_mcp.Core.Countries.{iso3_to_iso2, normalize_country_code, ted_country_code}
use licitaciones_mcp.Core.Countries.Laws.{ted_country_code_round_trip}
use licitaciones_mcp.Core.Scoring.{tender_matches_filters, cpv_overlaps, cpv_score}
use licitaciones_mcp.Core.Scoring.Cpv.{SomePair, cpv_overlaps_iff}
use licitaciones_mcp.Core.Scoring.Filters.{IsMatch, tender_matches_filters_iff}
use licitaciones_mcp.Core.Ranking.{score_tender, in_order, rank_tenders}
use licitaciones_mcp.Core.Ranking.Laws.{IsHit, ordered, rank_tenders_lem, rank_tenders_pages}
use licitaciones_mcp.Core.Quality.{is_valid_cpv_code}
use licitaciones_mcp.Core.Quality.Normal.{normalize_cpv_codes-valid}
use licitaciones_mcp.Core.Dedupe.{build_dedupe_key}
use licitaciones_mcp.Core.Dedupe.Keys.{build_dedupe_key_injective}
use licitaciones_mcp.Tests.{software, roads, software_filters, other_title, same_date, plain_sha}

tender_matches_filters_iff_example :
    (tender_matches_filters ascii_only software software_filters ≡ true)
    ↔ IsMatch ascii_only software software_filters
tender_matches_filters_iff_example = tender_matches_filters_iff ascii_only software software_filters

cpv_overlaps_iff_example :
    ((cpv_overlaps software.cpv_codes software_filters.cpv_codes ≡ true)
      ↔ SomePair (λ t w. take 2 t ≡ take 2 w) software.cpv_codes software_filters.cpv_codes)
    × ((4 ≤ cpv_score software.cpv_codes software_filters.cpv_codes)
        ↔ SomePair (λ t w. t ≡ w) software.cpv_codes software_filters.cpv_codes)
cpv_overlaps_iff_example = cpv_overlaps_iff software.cpv_codes software_filters.cpv_codes

rank_tenders_lem_example :
    let page = rank_tenders ascii_only 0 (software ∷ roads ∷ []) software_filters [] in
    All (IsHit ascii_only 0 software_filters []) page
    × IsSorted (in_order by_score desc) page
    × (length page ≤ 20)
    × Perm (ordered ascii_only 0 software_filters [] (software ∷ roads ∷ [])) (
        map
          (λ t. score_tender ascii_only 0 t software_filters (lookup (source_id t) []))
          (keep
            (λ t. tender_matches_filters ascii_only t software_filters)
            (software ∷ roads ∷ [])))
    × (page ≡ take 20 (drop 0 (ordered ascii_only 0 software_filters [] (software ∷ roads ∷ []))))
rank_tenders_lem_example = rank_tenders_lem ascii_only 0 software_filters [] (software ∷ roads ∷ [])

rank_tenders_pages_example :
    rank_tenders ascii_only 0 (software ∷ roads ∷ []) (record software_filters { limit = 1 }) []
      ++ rank_tenders ascii_only 0
          (software ∷ roads ∷ [])
          (record software_filters { limit = 2; offset = 0 + 1 })
          []
    ≡ rank_tenders ascii_only 0
        (software ∷ roads ∷ [])
        (record software_filters { limit = 1 + 2 })
        []
rank_tenders_pages_example =
    rank_tenders_pages ascii_only 0 software_filters [] (software ∷ roads ∷ []) 1 2

normalize_text_words_example :
    (split (codes "a b") ≡ split (codes " a  b "))
    × IsSpaced true (codes "a b")
    × (normalize_text (some (codes "a b")) ≡ some (codes "a b"))
unfolding normalize_text join split is_space
normalize_text_words_example = normalize_text_words (codes " a  b ") (codes "a b") refl

normalize_cpv_codes_lem_example :
    let result = normalize_cpv_codes ascii_only (joined (codes "72000000-5, 72000000,x")) in
    Distinct result
    × All (IsCpv ascii_only) result
    × ((c : Text)
        → contains result c
          ≡ any
              (λ raw. normalize_cpv_code ascii_only raw == some c)
              (raw_values (joined (codes "72000000-5, 72000000,x"))))
normalize_cpv_codes_lem_example =
    normalize_cpv_codes_lem ascii_only (joined (codes "72000000-5, 72000000,x"))

ted_country_code_round_trip_example :
    (normalize_country_code ascii_only (some (codes "ESP")) ≡ ok (some (codes "ES")))
    × (ted_country_code ascii_only (some (codes "ESP")) ≡ ok (some (codes "ESP")))
unfolding lookup list_eq iso3_to_iso2
ted_country_code_round_trip_example =
    ted_country_code_round_trip ascii_only ascii_only-IsUnicode (codes "ESP") (codes "ES") refl

normalize_cpv_codes-valid_example :
    All
      (λ c. is_valid_cpv_code ascii_only c ≡ true)
      (normalize_cpv_codes ascii_only (joined (codes "72000000-5")))
normalize_cpv_codes-valid_example =
    normalize_cpv_codes-valid ascii_only (joined (codes "72000000-5"))

build_dedupe_key_injective_example :
    (software.source ≡ other_title.source) × (software.external_id ≡ other_title.external_id)
unfolding build_dedupe_key
build_dedupe_key_injective_example =
    build_dedupe_key_injective ascii_only plain_sha same_date software other_title refl refl refl
