-- ===== src/Store/Pipeline/Healthy.antt =====
-- sanitizeCatalogProviderRun: when it leaves a run healthy.
use mathlib.Core.List.{◌++◌ as append}
use patch_board.Common.{
  true, false, not, ◌||◌, List, [], ◌∷◌, fold_left, all, any, if-cases, shown, ◌≡◌, refl, sym, ◌∙◌,
  ap, arith,
}
use patch_board.Store.Model.{
  StoreScanGeneration, StoreProviderHealth, incomplete, is_healthy, VerifiedStoreIdentityMapping,
  verified_for, StoreProviderObservation,
}
use patch_board.Store.Evidence.{observation_blocks_assessment}
use patch_board.Store.Snapshot.{StoreCatalogProviderRun}
use patch_board.Store.Pipeline.Sanitize.{
  is_own, is_verified, refuse, named_mapping, keep_observation, keep_mapping, downgraded,
  downgrade_run_health_for_blocking_observations, named_run, sanitize_catalog_provider_run,
  is_unset,
}

abbrev pub Healthy : StoreCatalogProviderRun → Type 0
Healthy run = is_healthy run.health ≡ true

module _ (scan : StoreScanGeneration) where
  keep_observation-Healthy :
      (run : StoreCatalogProviderRun) (o : StoreProviderObservation)
      → Healthy (keep_observation scan run o)
      → Healthy run × (is_own scan o ≡ true)
  unfolding keep_observation refuse
  keep_observation-Healthy run o =
      if-cases (λ (r : StoreCatalogProviderRun). Healthy r → Healthy run × (is_own scan o ≡ true))
        (not (is_own scan o)) _ _ (λ e h. ground arith) (λ e h. (h, shown _ e))

  observed_Healthy :
      (os : List StoreProviderObservation) (run : StoreCatalogProviderRun)
      → Healthy (fold_left (keep_observation scan) run os)
      → Healthy run × (all (is_own scan) os ≡ true)
  unfolding fold_left all
  observed_Healthy [] run h = (h, refl)
  observed_Healthy (o ∷ os) run h =
      let (later, own) = observed_Healthy os (keep_observation scan run o) h in
      let (first, own_first) = keep_observation-Healthy run o later in (first, ground arith)

  keep_mapping-Healthy :
      (run : StoreCatalogProviderRun) (m : VerifiedStoreIdentityMapping)
      → Healthy (keep_mapping scan run m)
      → Healthy run × (is_verified scan m ≡ true)
  unfolding keep_mapping refuse verified_for
  keep_mapping-Healthy run m =
      if-cases
        (λ (r : StoreCatalogProviderRun). Healthy r → Healthy run × (is_verified scan m ≡ true))
        (not (is_verified scan (named_mapping run m))) (refuse _ run)
        (record run { mappings = append run.mappings (named_mapping run m ∷ []) })
        (λ e h. ground arith) (λ e h. (h, shown _ e))

  mapped_Healthy :
      (ms : List VerifiedStoreIdentityMapping) (run : StoreCatalogProviderRun)
      → Healthy (fold_left (keep_mapping scan) run ms)
      → Healthy run × (all (is_verified scan) ms ≡ true)
  unfolding fold_left all
  mapped_Healthy [] run h = (h, refl)
  mapped_Healthy (m ∷ ms) run h =
      let (later, verified) = mapped_Healthy ms (keep_mapping scan run m) h in
      let (first, verified_first) = keep_mapping-Healthy run m later in (first, ground arith)

  downgraded-decisive :
      (run : StoreCatalogProviderRun) (os : List StoreProviderObservation)
      → Healthy (downgraded run os)
      → (downgraded run os ≡ run) × (any observation_blocks_assessment os ≡ false)
  unfolding downgraded any
  downgraded-decisive run [] = λ h. (refl, refl)
  downgraded-decisive run (o ∷ os) =
      if-cases
        (λ (r : StoreCatalogProviderRun).
          Healthy r
          → (r ≡ run)
            × ((observation_blocks_assessment o || any observation_blocks_assessment os) ≡ false))
        (not (observation_blocks_assessment o)) (downgraded run os) _
        (λ e h. let (same, rest) = downgraded-decisive run os h in (same, ground arith))
        (λ e h. ground arith)

  downgrade-decisive :
      (run : StoreCatalogProviderRun)
      → Healthy (downgrade_run_health_for_blocking_observations run)
      → (downgrade_run_health_for_blocking_observations run ≡ run)
        × (any observation_blocks_assessment run.observations ≡ false)
  unfolding downgrade_run_health_for_blocking_observations
  downgrade-decisive run =
      if-cases
        (λ (r : StoreCatalogProviderRun).
          Healthy r → (r ≡ run) × (any observation_blocks_assessment run.observations ≡ false))
        (not (is_healthy run.health)) run (downgraded run run.observations) (λ e h. ground arith)
        (λ e h. downgraded-decisive run run.observations h)

  named_run-Healthy : (run : StoreCatalogProviderRun) → Healthy (named_run run) → Healthy run
  unfolding named_run
  named_run-Healthy run =
      if-cases (λ (health : StoreProviderHealth). is_healthy health ≡ true → Healthy run)
        (is_unset run.health) incomplete run.health (λ e h. ground arith) (λ e h. h)

  abbrev observed : StoreCatalogProviderRun → StoreCatalogProviderRun
  observed run =
      fold_left (keep_observation scan) (record (named_run run) { observations = [] })
        run.observations

  abbrev mapped : StoreCatalogProviderRun → StoreCatalogProviderRun
  mapped run = fold_left (keep_mapping scan) (record (observed run) { mappings = [] }) run.mappings

  -- A run is left healthy only if it was, all that it held is the scan's, and nothing blocks.
  pub sanitize-Healthy :
      (run : StoreCatalogProviderRun)
      → Healthy (sanitize_catalog_provider_run scan run)
      → Healthy run
        × (all (is_own scan) run.observations ≡ true)
        × (all (is_verified scan) run.mappings ≡ true)
        × (any observation_blocks_assessment (sanitize_catalog_provider_run scan run).observations
            ≡ false)
  unfolding sanitize_catalog_provider_run
  sanitize-Healthy run h =
      let (same, decisive) = downgrade-decisive (mapped run) h in
      let (later, verified) =
        mapped_Healthy run.mappings (record (observed run) { mappings = [] })
          (ap (λ (r : StoreCatalogProviderRun). is_healthy r.health) (sym same) ∙ h) in
      let (first, own) =
        observed_Healthy run.observations (record (named_run run) { observations = [] }) later in
      (
        named_run-Healthy run first,
        own,
        verified,
        ap (λ (r : StoreCatalogProviderRun). any observation_blocks_assessment r.observations) same
            ∙ decisive,
      )
