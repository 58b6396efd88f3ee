-- ===== src/Store/Witnesses/Scanned.antt =====
-- Concrete inputs for the laws of a Store scan.
use mathlib.Core.List.{Memᴰ}
use patch_board.Common.{String, ◌≡◌, ◌↔◌, ◌⊎◌, refl, true, false, none, some, [], ◌∷◌, any}
use patch_board.Common.Text.{to_lower}
use patch_board.Common.Dict.{lookup, contains}
use patch_board.Commands.Result.{CommandResult}
use patch_board.Store.Model.{
  StoreScanGeneration, StoreScanCompletionStatus, StoreProviderHealth, StoreUpdateState,
  VerifiedStoreIdentityMapping, is_healthy, available,
}
use patch_board.Store.Reconcile.{reconcile_store_update}
use patch_board.Store.Snapshot.{StorePublishedAssessment, StoreCatalogProviderRun}
use patch_board.Store.Snapshot.Validated.{validate_store_scan_snapshot-IsWellFormed}
use patch_board.Store.Inventory.{
  StorePackagedAppRecord, version_text, group_store_packaged_app_families,
}
use patch_board.Store.Inventory.Grouped.{IsGrouping, group_store_packaged_app_families-IsGrouping}
use patch_board.Store.Pipeline.Sanitize.{product_like_families_by_pfn}
use patch_board.Store.Pipeline.Settle.{ProviderAnswer, settled_run}
use patch_board.Store.Pipeline.Reliable.{IsReliable, settled_run-IsReliable}
use patch_board.Store.Pipeline.Identities.{lookup_identity}
use patch_board.Store.Pipeline.Assessments.{ScanEvidence, reconciliation_input, assess_family}
use patch_board.Store.Pipeline.Backed.{IsBackedNow, assess_family-IsBacked}
use patch_board.Store.Pipeline.Retained.{IsRetained, assess_family-IsRetained}
use patch_board.Store.Pipeline.Plan.{positive_aggregate_observations_without_exact_target}
use patch_board.Store.Pipeline.Work.{PlanInput, plan_exact_work}
use patch_board.Store.Pipeline.Answered.{plan_exact_work-answers}
use patch_board.Store.Pipeline.Handled.{IsReused}
use patch_board.Store.Pipeline.Collect.{is_foreign}
use patch_board.Store.Pipeline.Providers.{StoreCatalogProvider, StoreScanPipeline, started_scan}
use patch_board.Store.Pipeline.Scan.{ScanSurroundings, answered, scanned_snapshot, run}
use patch_board.Store.Pipeline.Handed.{IsAccepted, run-IsAccepted}
use patch_board.Store.Witnesses.{app, scan, winget, offer}
use patch_board.Store.Witnesses.Published.{
  published_offer, installed, app_family, inventory, snapshot, snapshot_valid,
}

abbrev mapping : VerifiedStoreIdentityMapping
mapping = record {
  installed_identity = app;
  product_id = "9NBLGGH4NNS1";
  provider = winget;
  scan_id = "scan-7";
  verified_at = 150;
  evidence = "";
  identity_name = "";
  publisher_id = "";
  processor_architecture = "";
  product_like = false;
  provider_version = "";
}

abbrev winget_run : StoreCatalogProviderRun
winget_run = record {
  provider = winget;
  version = "1.0";
  started_at = 110;
  completed_at = 150;
  health = StoreProviderHealth.healthy;
  error = "";
  observations = offer ∷ [];
  mappings = mapping ∷ [];
  positive_update_hint = false;
}

abbrev winget_answer : ProviderAnswer
winget_answer = record {
  run = winget_run;
  identity = winget;
  started = 110;
  completed = 150;
  ended = none;
}

winget_stays_healthy : is_healthy (settled_run scan (app_family ∷ []) winget_answer).health ≡ true
unfolding settled_run to_lower patch_board.Store.Model.looks_like_store_product_id
winget_stays_healthy = refl

settled_run-IsReliable_example :
    IsReliable scan winget_answer (settled_run scan (app_family ∷ []) winget_answer)
settled_run-IsReliable_example =
    settled_run-IsReliable scan (app_family ∷ []) winget_answer winget_stays_healthy

-- A provider that returns evidence of another scan is failed, and keeps none of it.
abbrev foreign_answer : ProviderAnswer
foreign_answer = record winget_answer {
  run = record winget_run { observations = record offer { scan_id = "scan-6" } ∷ [] };
}

foreign_is_dropped : (settled_run scan [] foreign_answer).observations ≡ []
unfolding settled_run patch_board.Store.Model.looks_like_store_product_id
foreign_is_dropped = refl

abbrev evidence : ScanEvidence
evidence = record { scan = scan; runs = winget_run ∷ []; previous = [] }

app_available : (assess_family evidence app).state ≡ StoreUpdateState.available
unfolding assess_family patch_board.Store.Model.looks_like_store_product_id
    patch_board.Store.Model.resolved patch_board.Store.Model.usable_for
    patch_board.Store.Reconcile.decide patch_board.Store.Evidence.collect
    patch_board.Store.Model.exact_for
    patch_board.Store.Evidence.negative_evidence_can_yield_to_exact_positive
    patch_board.Store.Offers.reconcile_exact_store_update_offers patch_board.Store.Offers.index_from
    patch_board.Store.Offers.describe patch_board.Common.Dict.insert
    patch_board.Store.Offers.has_conflicting_non_pfn_update_ids
app_available = refl

app_not_stale : (assess_family evidence app).stale ≡ false
unfolding assess_family
app_not_stale = refl

assess_family-IsBacked_example : IsBackedNow evidence app
assess_family-IsBacked_example = assess_family-IsBacked evidence app app_available app_not_stale

-- The previous snapshot says that the app is up to date, and the scan is incomplete.
abbrev was_current : StorePublishedAssessment
was_current = record published_offer {
  assessment = record published_offer.assessment {
    state = StoreUpdateState.current;
    target = none;
  };
  exact_action_target_available = false;
}

abbrev interrupted : ScanEvidence
interrupted = record {
  scan = record scan { completion_status = StoreScanCompletionStatus.incomplete };
  runs = [];
  previous = (app, was_current) ∷ [];
}

current_becomes_available : (assess_family interrupted app).state ≡ StoreUpdateState.available
unfolding assess_family patch_board.Store.Model.resolved patch_board.Store.Model.usable_for
    patch_board.Store.Reconcile.decide patch_board.Store.Evidence.collect
current_becomes_available = refl

assess_family-IsRetained_example : ((assess_family interrupted app).stale ≡ true) ↔ (
    (previous : StorePublishedAssessment) × IsRetained interrupted
      (reconcile_store_update (reconciliation_input interrupted app))
      (lookup_identity app interrupted.previous)
      previous
    × ((assess_family interrupted app).state ≡ available)
    × ((assess_family interrupted app).target ≡ previous.target))
assess_family-IsRetained_example = assess_family-IsRetained interrupted app

-- The aggregate provider offers an update without a target.
abbrev updates_run : StoreCatalogProviderRun
updates_run = record winget_run {
  provider = record { id = "store-cli-updates"; name = ""; backend = "store" };
  observations = record offer { target = none } ∷ [];
  mappings = [];
}

abbrev planning_input : PlanInput
planning_input = record {
  deep_exact_scan = false;
  scan = scan;
  families = app_family ∷ [];
  aggregate_runs = updates_run ∷ [];
  previous = none;
  exact_provider_version = "1.0";
  ensure_mapping_coverage = false;
  auto_update = [];
}

offer_needs_target :
    Memᴰ
      (record offer { target = none })
      (positive_aggregate_observations_without_exact_target scan (updates_run ∷ []))
unfolding positive_aggregate_observations_without_exact_target
offer_needs_target = Memᴰ.head refl

app_in_scope :
    lookup (to_lower "Acme.App_1a") (product_like_families_by_pfn scan (app_family ∷ []))
    ≡ some app_family
unfolding lookup product_like_families_by_pfn to_lower
app_in_scope = refl

plan_exact_work-answers_example :
    (Memᴰ app_family (plan_exact_work planning_input).families
      × (contains (to_lower "Acme.App_1a") (plan_exact_work planning_input).state_check_pfns
          ≡ true))
    ⊎ IsReused app_family (plan_exact_work planning_input).mapping_reuse_run
plan_exact_work-answers_example =
    plan_exact_work-answers planning_input (record offer { target = none }) app_family refl
      offer_needs_target app_in_scope

app_is_checked : (plan_exact_work planning_input).state_check_pfns ≡ "acme.app_1a" ∷ []
unfolding plan_exact_work
app_is_checked = refl

abbrev no_output : CommandResult
no_output = record { ok = true; code = 0; command = ""; stdout = ""; stderr = "" }

abbrev pipeline : StoreScanPipeline
pipeline = record {
  inventory_answer = λ (s : StoreScanGeneration). record {
    inventory = inventory;
    result = no_output;
    started = 110;
    completed = 120;
    ended = none;
  };
  catalog_providers =
      StoreCatalogProvider.store_cli_exact
        (record { version = "1.0"; observe_checking = λ keys s families. winget_answer })
      ∷ StoreCatalogProvider.aggregate (λ s families. record winget_answer { run = updates_run })
      ∷ [];
  deep_exact_scan = false;
  auto_update = [];
  started_now = 100;
  completed_now = 200;
  scan_id = "scan-7";
}

app_is_own : any (is_foreign (started_scan pipeline "S-1")) (app_family ∷ []) ≡ false
unfolding any started_scan
app_is_own = refl

abbrev world : ScanSurroundings
world = record {
  user_sid = answered "S-1";
  lock_error = none;
  running = false;
  latest_published = λ sid. answered (some snapshot);
  before_commit = λ s. none;
  persist = λ s. answered true;
}

handed_over :
    (run pipeline world).handed_over ≡ some (scanned_snapshot pipeline "S-1" (some snapshot))
unfolding run
handed_over = refl

run-IsAccepted_example : IsAccepted world (scanned_snapshot pipeline "S-1" (some snapshot))
run-IsAccepted_example =
    run-IsAccepted pipeline world "S-1" (some snapshot)
      (scanned_snapshot pipeline "S-1" (some snapshot)) refl refl refl refl app_is_own refl
      (validate_store_scan_snapshot-IsWellFormed snapshot snapshot_valid) handed_over

published : (scanned_snapshot pipeline "S-1" none).published ≡ true
unfolding scanned_snapshot patch_board.Store.Model.looks_like_store_product_id
published = refl

abbrev installed_before : StorePackagedAppRecord
installed_before = record installed {
  version = record { major = 0; minor = 9; build = 0; revision = 0 };
}

abbrev own_name : String → String → String
own_name identity_name display_name = display_name

newest_leads :
    group_store_packaged_app_families own_name (installed_before ∷ installed ∷ [])
    ≡ record app_family { instances = installed ∷ installed_before ∷ [] } ∷ []
unfolding group_store_packaged_app_families
newest_leads = refl

group_store_packaged_app_families-IsGrouping_example :
    IsGrouping
      (installed_before ∷ installed ∷ [])
      (group_store_packaged_app_families own_name (installed_before ∷ installed ∷ []))
group_store_packaged_app_families-IsGrouping_example =
    group_store_packaged_app_families-IsGrouping own_name (installed_before ∷ installed ∷ [])

version_shown : version_text (installed.version) ≡ "1.0.0.0"
unfolding version_text
version_shown = refl
