-- ===== src/Store/Witnesses/Published.antt =====
-- Concrete inputs for the laws of published evidence, of its authorisation and of versions.
use mathlib.Core.List.{Memᴰ}
use Prim.Native.Nat.{Ordering}
use Prim.Native.String.{len}
use patch_board.Common.{◌≤◌, arith, ◌≡◌, ◌↔◌, refl, true, false, none, some, [], ◌∷◌}
use patch_board.Common.Text.{trim_space}
use patch_board.Store.Diagnostics.{sanitize_provider_diagnostic}
use patch_board.Store.Diagnostics.Bounds.{len-sanitize_provider_diagnostic}
use patch_board.Store.Model.{exact_for, StoreUpdateState}
use patch_board.Store.Inventory.{
  StorePackagedAppRecord, StorePackagedAppFamily, StorePackagedAppInventory,
}
use patch_board.Store.Snapshot.{
  StorePublishedAssessment, StoreScanSnapshot, normalize_store_scan_snapshot_exact_targets,
  validate_store_scan_snapshot,
}
use patch_board.Store.Snapshot.Validated.{IsWellFormed, validate_store_scan_snapshot-IsWellFormed}
use patch_board.Store.Freshness.{evaluate_published_store_assessment_freshness}
use patch_board.Store.Freshness.Laws.{
  IsFresh, evaluate_published_store_assessment_freshness-IsFresh,
}
use patch_board.Store.Versions.{parse_store_package_version, compare_store_package_versions}
use patch_board.Store.Versions.Order.{Above, compare_store_package_versions-IsLexicographic}
use patch_board.Store.Authorize.{
  StoreExactUpdateRequest, StoreExactPackageSnapshot, StoreExactCatalogResult, Loaded,
  Authorization, verify_published_store_update_assessment, store_snapshot_verifies_update,
  store_catalog_verifies_update,
}
use patch_board.Store.Authorize.Laws.{Warrant, verify_published_store_update_assessment-IsWarranted}
use patch_board.Store.Authorize.Verified.{
  IsUpdated, store_snapshot_verifies_update-IsUpdated, IsSettled,
  store_catalog_verifies_update-IsSettled,
}
use patch_board.Store.Witnesses.{app, scan, winget, target}

abbrev pub published_offer : StorePublishedAssessment
published_offer = record {
  assessment = record {
    state = StoreUpdateState.available;
    identity = app;
    scan_id = "scan-7";
    reason = "";
    installed_version = "1.0";
    available_version = "1.2";
    target = some target;
    evidence = [];
    rejected_evidence_count = 0;
    provider_health = [];
  };
  observed_at = 150;
  stale = false;
  store_product_id = "9NBLGGH4NNS1";
  update_id = "";
  exact_action_target_available = true;
  applicability = "";
}

abbrev pub installed : StorePackagedAppRecord
installed = record {
  user_sid = "S-1";
  package_family_name = "Acme.App_1a";
  package_full_name = "Acme.App_1.0.0.0_x64__1a";
  identity_name = "Acme.App";
  publisher = "CN=Acme";
  publisher_id = "1a";
  version = record { major = 1; minor = 0; build = 0; revision = 0 };
  processor_architecture = "x64";
  install_location = "";
  package_type = "";
  classification = "main";
  is_framework = false;
  is_resource_package = false;
  is_optional = false;
  is_bundle = false;
  is_development_mode = false;
  is_staged = false;
  status = record { ok = true; raw = "" };
  display_name = "App";
}

abbrev pub app_family : StorePackagedAppFamily
app_family = record {
  identity = app;
  primary = installed;
  instances = installed ∷ [];
  display_name = "App";
  product_like = true;
}

abbrev pub inventory : StorePackagedAppInventory
inventory = record {
  scan = scan;
  records = installed ∷ [];
  families = app_family ∷ [];
  partial = false;
  errors = [];
}

abbrev pub snapshot : StoreScanSnapshot
snapshot = record {
  schema_version = 1;
  published = true;
  recovered_from_fallback = false;
  scan = scan;
  inventory = inventory;
  provider_runs = [];
  assessments = published_offer ∷ [];
}

evaluate_published_store_assessment_freshness-IsFresh_example :
    ((evaluate_published_store_assessment_freshness 1 snapshot published_offer "1.0" 300).fresh
      ≡ true)
    ↔ IsFresh snapshot published_offer "1.0" 300
evaluate_published_store_assessment_freshness-IsFresh_example =
    evaluate_published_store_assessment_freshness-IsFresh 1 snapshot published_offer "1.0" 300
      (omega arith)

pub snapshot_valid : validate_store_scan_snapshot snapshot ≡ none
unfolding validate_store_scan_snapshot patch_board.Common.any patch_board.Store.Model.resolved
    patch_board.Store.Snapshot.store_assessment_exact_target_valid exact_for trim_space
    patch_board.Store.Model.looks_like_store_product_id
snapshot_valid = refl

validate_store_scan_snapshot-IsWellFormed_example : IsWellFormed snapshot
validate_store_scan_snapshot-IsWellFormed_example =
    validate_store_scan_snapshot-IsWellFormed snapshot snapshot_valid

normalized_kept :
    Memᴰ published_offer (normalize_store_scan_snapshot_exact_targets snapshot).assessments
unfolding normalize_store_scan_snapshot_exact_targets exact_for trim_space
    patch_board.Store.Model.looks_like_store_product_id
    patch_board.Store.Diagnostics.first_non_empty
normalized_kept = Memᴰ.head refl

abbrev request : StoreExactUpdateRequest
request = record {
  identity = app;
  product_id = "9NBLGGH4NNS1";
  update_id = "";
  target = "9NBLGGH4NNS1";
  provider = winget;
  scan_id = "scan-7";
  observed_at = "";
  installed_version = "1.0";
  current_installed_version = "1.0";
  offered_version = "1.2";
}

request_authorized :
    verify_published_store_update_assessment 300 request (Loaded.published snapshot)
    ≡ Authorization.authorized
unfolding verify_published_store_update_assessment patch_board.Store.Model.equal
    evaluate_published_store_assessment_freshness
    patch_board.Store.Freshness.stale_store_evidence_time_reason
    patch_board.Store.Freshness.store_assessment_version_known trim_space
    patch_board.Common.Text.equal_fold
request_authorized = refl

verify_published_store_update_assessment-IsWarranted_example :
    (s : StoreScanSnapshot) × (Loaded.published snapshot ≡ Loaded.published s)
    × ((a : StorePublishedAssessment) × Warrant 300 request s a)
verify_published_store_update_assessment-IsWarranted_example =
    verify_published_store_update_assessment-IsWarranted 300 request (Loaded.published snapshot)
      (omega arith) request_authorized

abbrev pub before : StoreExactPackageSnapshot
before = record {
  identity = app;
  package_full_name = "Acme.App_1.0_x64__1a";
  version = "1.0";
  healthy = true;
  exists = true;
  observed_at = 300;
  diagnostics = "";
}

abbrev pub after : StoreExactPackageSnapshot
after = record before { version = "1.2.0" }

update_seen : (store_snapshot_verifies_update request before after).0 ≡ true
unfolding store_snapshot_verifies_update patch_board.Store.Model.equal
    patch_board.Store.Freshness.store_assessment_version_known trim_space
    patch_board.Common.Text.equal_fold compare_store_package_versions parse_store_package_version
    patch_board.Store.Versions.compare_parts
update_seen = refl

store_snapshot_verifies_update-IsUpdated_example : IsUpdated request before after
store_snapshot_verifies_update-IsUpdated_example =
    store_snapshot_verifies_update-IsUpdated request before after update_seen

abbrev catalog : StoreExactCatalogResult
catalog = record {
  authoritative = true;
  offer_available = false;
  installed_healthy = true;
  offered_version = "";
  diagnostics = "";
}

store_catalog_verifies_update-IsSettled_example :
    (store_catalog_verifies_update request before catalog after ≡ true)
    ↔ IsSettled request before catalog after
store_catalog_verifies_update-IsSettled_example =
    store_catalog_verifies_update-IsSettled request before catalog after

parsed_old : parse_store_package_version "1.0" ≡ some (1 ∷ 0 ∷ [])
unfolding parse_store_package_version patch_board.Store.Freshness.store_assessment_version_known
    trim_space patch_board.Common.Text.equal_fold
parsed_old = refl

parsed_new : parse_store_package_version "1.2.0" ≡ some (1 ∷ 2 ∷ 0 ∷ [])
unfolding parse_store_package_version patch_board.Store.Freshness.store_assessment_version_known
    trim_space patch_board.Common.Text.equal_fold
parsed_new = refl

compare_store_package_versions-IsLexicographic_example :
    ((compare_store_package_versions "1.2.0" "1.0" ≡ some Ordering.gt)
      ↔ Above (1 ∷ 2 ∷ 0 ∷ []) (1 ∷ 0 ∷ []))
    × ((compare_store_package_versions "1.2.0" "1.0" ≡ some Ordering.lt)
        ↔ Above (1 ∷ 0 ∷ []) (1 ∷ 2 ∷ 0 ∷ []))
compare_store_package_versions-IsLexicographic_example =
    compare_store_package_versions-IsLexicographic "1.2.0" "1.0" (1 ∷ 2 ∷ 0 ∷ []) (1 ∷ 0 ∷ [])
      parsed_new parsed_old

len-sanitize_provider_diagnostic_example : len (sanitize_provider_diagnostic "a\r\nb") ≤ 220
len-sanitize_provider_diagnostic_example = len-sanitize_provider_diagnostic "a\r\nb"
