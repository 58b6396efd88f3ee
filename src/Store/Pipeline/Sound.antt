-- ===== src/Store/Pipeline/Sound.antt =====
-- sanitizeCatalogProviderRun: what holds of a run once it is sanitised.
use mathlib.Core.List.{◌++◌ as append}
use patch_board.Common.{
  true, not, List, [], ◌∷◌, fold_left-keeps, all, all-snoc, if-cases, shown, ◌≡◌, refl,
}
use patch_board.Store.Model.{
  StoreScanGeneration, is_healthy, VerifiedStoreIdentityMapping, StoreProviderObservation,
}
use patch_board.Store.Evidence.{observation_blocks_assessment}
use patch_board.Store.Snapshot.{StoreCatalogProviderRun}
use patch_board.Store.Pipeline.Sanitize.{
  is_own, is_verified, refuse, kept_observation, named_mapping, keep_observation, keep_mapping,
  downgraded, downgrade_run_health_for_blocking_observations, named_run,
  sanitize_catalog_provider_run,
}

-- All that the run holds is evidence of the scan, and its mappings are verified in it.
pub record IsSound (scan : StoreScanGeneration) (run : StoreCatalogProviderRun) : Type 0 where
  pub observations : all (is_own scan) run.observations ≡ true
  pub mappings : all (is_verified scan) run.mappings ≡ true

module _ (scan : StoreScanGeneration) where
  keep_observation-own :
      (run : StoreCatalogProviderRun) (o : StoreProviderObservation)
      → all (is_own scan) run.observations ≡ true
      → all (is_own scan) (keep_observation scan run o).observations ≡ true
  unfolding keep_observation refuse is_own
  keep_observation-own run o h =
      if-cases (λ (r : StoreCatalogProviderRun). all (is_own scan) r.observations ≡ true)
        (not (is_own scan o)) _ _ (λ e. h)
        (λ e. all-snoc (is_own scan) run.observations (kept_observation run o) h (shown _ e))

  keep_mapping-IsSound :
      (run : StoreCatalogProviderRun) (m : VerifiedStoreIdentityMapping)
      → IsSound scan run
      → IsSound scan (keep_mapping scan run m)
  unfolding keep_mapping refuse
  keep_mapping-IsSound run m h =
      if-cases (λ (r : StoreCatalogProviderRun). IsSound scan r)
        (not (is_verified scan (named_mapping run m))) (refuse _ run)
        (record run { mappings = append run.mappings (named_mapping run m ∷ []) })
        (λ e. record { observations = h.observations; mappings = h.mappings })
        (λ e. record {
          observations = h.observations;
          mappings =
              all-snoc (is_verified scan) run.mappings (named_mapping run m) h.mappings (shown _ e);
        })

  downgraded-IsSound :
      (run : StoreCatalogProviderRun) (os : List StoreProviderObservation)
      → IsSound scan run
      → IsSound scan (downgraded run os)
  unfolding downgraded
  downgraded-IsSound run [] h = h
  downgraded-IsSound run (o ∷ os) h =
      if-cases (λ (r : StoreCatalogProviderRun). IsSound scan r)
        (not (observation_blocks_assessment o)) _ _ (λ e. downgraded-IsSound run os h)
        (λ e. record { observations = h.observations; mappings = h.mappings })

  downgrade-IsSound :
      (run : StoreCatalogProviderRun)
      → IsSound scan run
      → IsSound scan (downgrade_run_health_for_blocking_observations run)
  unfolding downgrade_run_health_for_blocking_observations
  downgrade-IsSound run h =
      if-cases (λ (r : StoreCatalogProviderRun). IsSound scan r) (not (is_healthy run.health)) run
        (downgraded run run.observations) (λ e. h) (λ e. downgraded-IsSound run run.observations h)

  -- Only evidence of the scan, and mappings that are verified in it, are left in a sanitised run.
  pub sanitize_catalog_provider_run-IsSound :
      (run : StoreCatalogProviderRun) → IsSound scan (sanitize_catalog_provider_run scan run)
  unfolding sanitize_catalog_provider_run all
  sanitize_catalog_provider_run-IsSound run =
      let own =
        fold_left-keeps (keep_observation scan)
          (λ (r : StoreCatalogProviderRun). all (is_own scan) r.observations ≡ true)
          (record (named_run run) { observations = [] }) run.observations
          (λ t o m h. keep_observation-own t o h) refl in
      downgrade-IsSound _ (
        fold_left-keeps (keep_mapping scan) (λ (r : StoreCatalogProviderRun). IsSound scan r) _
          run.mappings (λ t o m h. keep_mapping-IsSound t o h)
          (record { observations = own; mappings = refl }))
