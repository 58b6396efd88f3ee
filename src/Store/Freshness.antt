-- ===== src/Store/Freshness.antt =====
-- internal/updater/store_assessment_freshness.go. Durations are in nanoseconds. A duration saturates
-- in Go at 292 years, which is past the window as well; one below zero counts as zero, as `-` does.
pub mod Laws
use Prim.Native.String.{◌++◌}
use patch_board.Common.{ℕ, ◌-◌, String, Bool, true, false, not, ◌&&◌, ltb, if◌then◌else◌, [], ◌∷◌}
use patch_board.Common.Text.{nonempty, equal_fold, trim_space}
use patch_board.Store.Diagnostics.{sanitize_provider_diagnostic, first_non_empty}
use patch_board.Store.Model.{is_zero}
use patch_board.Store.Snapshot.{StoreScanSnapshot, StorePublishedAssessment}

-- Two hours.
abbrev pub store_assessment_freshness_window : ℕ
store_assessment_freshness_window = 7200000000000

pub record StorePublishedAssessmentFreshness : Type 0 where
  pub fresh : Bool
  pub reason : String

unfoldable pub store_assessment_version_known : String → Bool
store_assessment_version_known version =
    nonempty (trim_space version) && not (equal_fold (trim_space version) "unknown")

-- The empty text means that the time is recent.
unfoldable pub stale_store_evidence_time_reason : String → ℕ → ℕ → String
stale_store_evidence_time_reason label evidence_time now =
    if is_zero evidence_time
    then label ++ " time is unavailable"
    else if ltb store_assessment_freshness_window (now - evidence_time)
    then label ++ " evidence is older than 2h0m0s"
    else ""

unfoldable pub stale_published_store_assessment_freshness :
    String → StorePublishedAssessmentFreshness
stale_published_store_assessment_freshness reason = record {
  fresh = false;
  reason = sanitize_provider_diagnostic reason;
}

-- `clock` is what `time.Now` returns, asked only when no time is given.
unfoldable pub evaluate_published_store_assessment_freshness :
    ℕ
    → StoreScanSnapshot
    → StorePublishedAssessment
    → String
    → ℕ
    → StorePublishedAssessmentFreshness
unfolding stale_published_store_assessment_freshness
evaluate_published_store_assessment_freshness clock snapshot assessment installed_version now =
    let now = (if is_zero now then clock else now) in
    let scan_reason = stale_store_evidence_time_reason "snapshot" snapshot.scan.completed_at now in
    let assessment_reason =
      stale_store_evidence_time_reason "assessment" assessment.observed_at now in
    let current = trim_space installed_version in
    let assessed = trim_space assessment.installed_version in
    if not snapshot.published
    then stale_published_store_assessment_freshness "snapshot was not published"
    else if snapshot.recovered_from_fallback
    then stale_published_store_assessment_freshness
        "snapshot was recovered after a newer snapshot could not be decoded"
    else if assessment.stale
    then stale_published_store_assessment_freshness "assessment was retained from an earlier scan"
    else if nonempty scan_reason
    then stale_published_store_assessment_freshness scan_reason
    else if nonempty assessment_reason
    then stale_published_store_assessment_freshness assessment_reason
    else if not (store_assessment_version_known current)
    then stale_published_store_assessment_freshness "current installed version is unavailable"
    else if not (store_assessment_version_known assessed)
    then stale_published_store_assessment_freshness "assessed installed version is unavailable"
    else if not (equal_fold current assessed)
    then stale_published_store_assessment_freshness
        "installed version no longer matches the assessed version"
    else record { fresh = true; reason = "" }

unfoldable pub stale_store_assessment_projection :
    StorePublishedAssessment → String → StorePublishedAssessment
unfolding sanitize_provider_diagnostic first_non_empty
stale_store_assessment_projection a reason =
    let existing = first_non_empty (a.reason ∷ "stale Store update evidence" ∷ []) in
    let text =
      (if nonempty reason
        then sanitize_provider_diagnostic (existing ++ (": " ++ reason))
        else a.reason) in
    record a {
      assessment = record a.assessment { reason = text };
      stale = true;
      exact_action_target_available = false;
    }
