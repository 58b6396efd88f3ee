-- ===== src/Store/Pipeline/Reliable.antt =====
-- runCatalogProviders: when a run is healthy after all that is done with it.
use mathlib.Core.List.{◌++◌ as append}
use patch_board.Common.{
  String, true, false, not, Option, none, some, List, [], ◌∷◌, map, fold_left, fold_left-keeps, all,
  any, if-cases, ◌≡◌, refl, sym, ◌∙◌, ap, arith,
}
use patch_board.Common.Text.{str_eq}
use patch_board.Store.Model.{
  StoreScanGeneration, provider_key, is_healthy, VerifiedStoreIdentityMapping, verified_for,
}
use patch_board.Store.Evidence.{observation_blocks_assessment}
use patch_board.Store.Inventory.{StorePackagedAppFamily}
use patch_board.Store.Snapshot.{StoreCatalogProviderRun}
use patch_board.Store.Pipeline.Sanitize.{
  is_own, is_verified, in_scope, sanitize_catalog_provider_run, with_fingerprint,
  attach_mapping_fingerprints,
}
use patch_board.Store.Pipeline.Settle.{
  add_missing, missing_observation, note_seen, if_ended, synthesize_missing_provider_observations,
  settled_run, ProviderAnswer, completed_run,
}
use patch_board.Store.Pipeline.Healthy.{Healthy, sanitize-Healthy}

module _ (scan : StoreScanGeneration) where
  add_missing-health :
      (seen : List String) (run : StoreCatalogProviderRun) (family : StorePackagedAppFamily)
      → (add_missing scan seen run family).health ≡ run.health
  unfolding add_missing
  add_missing-health seen run family =
      if-cases (λ (r : StoreCatalogProviderRun). r.health ≡ run.health) (not (in_scope scan family))
        _ _ (λ e. refl)
        (λ e.
          if-cases (λ (r : StoreCatalogProviderRun). r.health ≡ run.health) _ run
            (record run {
              observations = append run.observations (missing_observation scan run family ∷ []);
            })
            (λ k. refl) (λ k. refl))

  -- What is synthesised leaves a healthy run as it is, and does not make another healthy.
  synthesize-Healthy :
      (run : StoreCatalogProviderRun) (families : List StorePackagedAppFamily)
      → Healthy (synthesize_missing_provider_observations scan run families)
      → Healthy run
  unfolding synthesize_missing_provider_observations
  synthesize-Healthy run families =
      if-cases (λ (r : StoreCatalogProviderRun). Healthy r → Healthy run) (is_healthy run.health)
        run _ (λ e h. h)
        (λ e.
          if-cases (λ (r : StoreCatalogProviderRun). Healthy r → Healthy run)
            (str_eq (provider_key run.provider) "store-winrt-discovery") run _ (λ k h. h)
            (λ k h.
              ap is_healthy (
                sym (
                  fold_left-keeps
                    (add_missing scan (fold_left (note_seen scan) [] run.observations))
                    (λ (r : StoreCatalogProviderRun). r.health ≡ run.health) run families
                    (λ t f m s. add_missing-health _ t f ∙ s) refl))
              ∙ h))

  fingerprint-verified :
      (run : StoreCatalogProviderRun) (m : VerifiedStoreIdentityMapping)
      (family : Option StorePackagedAppFamily)
      → is_verified scan (with_fingerprint run m family) ≡ is_verified scan m
  unfolding with_fingerprint verified_for
  fingerprint-verified run m none = refl
  fingerprint-verified run m (some family) = refl

  fingerprints-verified :
      (run : StoreCatalogProviderRun)
      (found : VerifiedStoreIdentityMapping → Option StorePackagedAppFamily)
      (ms : List VerifiedStoreIdentityMapping)
      → all (is_verified scan) (map (λ m. with_fingerprint run m (found m)) ms)
        ≡ all (is_verified scan) ms
  unfolding all
  fingerprints-verified run found [] = refl
  fingerprints-verified run found (m ∷ ms) =
      rw (fingerprint-verified run m (found m), fingerprints-verified run found ms) refl

  -- What is reliable in the answer of a provider whose run is healthy in the end.
  pub record IsReliable (answer : ProviderAnswer) (run : StoreCatalogProviderRun) : Type 0 where
    pub unended : answer.ended ≡ none
    pub answered : Healthy answer.run
    pub own : all (is_own scan) answer.run.observations ≡ true
    pub verified : all (is_verified scan) answer.run.mappings ≡ true
    pub decisive : any observation_blocks_assessment run.observations ≡ false

  if_ended-Healthy :
      (ended : Option String) (run : StoreCatalogProviderRun)
      → Healthy (if_ended ended run)
      → (ended ≡ none) × Healthy run
  if_ended-Healthy none run h = (refl, h)
  if_ended-Healthy (some reason) run h = ground arith

  completed_run-Healthy :
      (answer : ProviderAnswer)
      → Healthy (completed_run answer)
      → (answer.ended ≡ none) × Healthy answer.run
  unfolding completed_run
  completed_run-Healthy answer h = if_ended-Healthy answer.ended _ h

  if_ended-keeps :
      (ended : Option String) (run : StoreCatalogProviderRun)
      → ((if_ended ended run).observations ≡ run.observations)
        × ((if_ended ended run).mappings ≡ run.mappings)
  if_ended-keeps none run = (refl, refl)
  if_ended-keeps (some reason) run = (refl, refl)

  -- The fingerprints change nothing that the sanitising looks at.
  attached-same :
      (families : List StorePackagedAppFamily) (answer : ProviderAnswer)
      → (all
            (is_own scan)
            (attach_mapping_fingerprints scan (completed_run answer) families).observations
          ≡ all (is_own scan) answer.run.observations)
        × (all
              (is_verified scan)
              (attach_mapping_fingerprints scan (completed_run answer) families).mappings
            ≡ all (is_verified scan) answer.run.mappings)
  unfolding attach_mapping_fingerprints completed_run
  attached-same families answer =
      let kept = if_ended-keeps answer.ended _ in
      (
        ap (all (is_own scan)) kept.0,
        fingerprints-verified (completed_run answer) _ (completed_run answer).mappings
            ∙ ap (all (is_verified scan)) kept.1,
      )

  -- If a run is healthy after all that the pipeline does with it, then the provider's context had not
  -- ended, the provider said that it was healthy, every observation that it returned was of this scan
  -- and of its user, each of its mappings was verified in the scan, and no observation blocks an
  -- assessment.
  pub settled_run-IsReliable :
      (families : List StorePackagedAppFamily) (answer : ProviderAnswer)
      → Healthy (settled_run scan families answer)
      → IsReliable answer (settled_run scan families answer)
  unfolding settled_run
  settled_run-IsReliable families answer h =
      let attached = attach_mapping_fingerprints scan (completed_run answer) families in
      let (second, own_too, verified_too, decisive) =
        sanitize-Healthy scan
          (synthesize_missing_provider_observations scan
            (sanitize_catalog_provider_run scan attached) families)
          h in
      let (first, own, verified, _) =
        sanitize-Healthy scan attached
          (synthesize-Healthy (sanitize_catalog_provider_run scan attached) families second) in
      let (unended, answered) = completed_run-Healthy answer first in
      let same = attached-same families answer in
      record {
        unended = unended;
        answered = answered;
        own = sym same.0 ∙ own;
        verified = sym same.1 ∙ verified;
        decisive = decisive;
      }
