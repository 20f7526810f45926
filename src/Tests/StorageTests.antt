-- ===== src/Tests/StorageTests.antt =====
-- storage/database.py at concrete inputs.
use licitaciones_mcp.Base.{
  ◌≤◌, ◌≡◌, ◌||◌, some, [], ◌∷◌, map, All, length, contains, list_eq, nat_eq,
}
use licitaciones_mcp.Base.Dict.{keys}
use licitaciones_mcp.Base.Text.{Text, codes}
use licitaciones_mcp.Base.Unicode.{ascii_only}
use licitaciones_mcp.Core.Models.{TenderQualityIssue, warning}
use licitaciones_mcp.Storage.Hybrid.{fusion_key, fuse}
use licitaciones_mcp.Storage.Hybrid.Laws.{IsFusion, fuse_lem}
use licitaciones_mcp.Storage.Retrieval.{results_from_retrieval_order}
use licitaciones_mcp.Storage.Retrieval.Laws.{IsAtPlace, results_from_retrieval_order_lem}
use licitaciones_mcp.Storage.Upsert.{merge_quality_issues}
use licitaciones_mcp.Storage.Upsert.Merge.{merge_quality_issues_idem}
use licitaciones_mcp.Tests.{software, roads, software_filters, found_software}

fuse_lem_example :
    IsFusion (fuse 60 (found_software ∷ []) (roads ∷ software ∷ []))
    × ((k : Text)
        → contains (keys (fuse 60 (found_software ∷ []) (roads ∷ software ∷ [])).tenders) k ≡ (
            contains (map fusion_key (roads ∷ software ∷ [])) k
            || contains (map (λ r. fusion_key r.tender) (found_software ∷ [])) k))
fuse_lem_example = fuse_lem 60 (found_software ∷ []) (roads ∷ software ∷ [])

results_from_retrieval_order_lem_example :
    let page =
      results_from_retrieval_order ascii_only software_filters
        (codes "bm25" ∷ [])
        (roads ∷ software ∷ []) in
    (length page ≤ 20)
    × All (IsAtPlace ascii_only software_filters (codes "bm25" ∷ []) 1 (roads ∷ software ∷ [])) page
results_from_retrieval_order_lem_example =
    results_from_retrieval_order_lem ascii_only software_filters (codes "bm25" ∷ [])
      (roads ∷ software ∷ [])

abbrev no_cpv : TenderQualityIssue
no_cpv = record {
  code = codes "missing_cpv";
  severity = warning;
  message = codes "Tender has no CPV codes.";
  field = some (codes "cpv_codes");
}

abbrev no_buyer : TenderQualityIssue
no_buyer = record {
  code = codes "missing_buyer";
  severity = warning;
  message = codes "Tender has no buyer name.";
  field = some (codes "buyer_name");
}

merge_quality_issues_idem_example :
    merge_quality_issues
      (merge_quality_issues (no_cpv ∷ []) (no_cpv ∷ no_buyer ∷ []))
      (no_cpv ∷ no_buyer ∷ [])
    ≡ merge_quality_issues (no_cpv ∷ []) (no_cpv ∷ no_buyer ∷ [])
merge_quality_issues_idem_example = merge_quality_issues_idem (no_cpv ∷ []) (no_cpv ∷ no_buyer ∷ [])
