-- ===== src/Store/Pipeline/Reused.antt =====
-- appendMappingReuseObservation: the run of reused mappings.
use text.Mathlib.TextPositions.{eq_refl}
use patch_board.Common.{
  ℕ, String, true, not, ◌||◌, Option, none, some, List, [], fold_left-keeps, all, all-snoc,
  if-cases, ◌≡◌, refl, arith,
}
use patch_board.Common.Text.{to_lower}
use patch_board.Common.Dict.{Dict, lookup, AllValues, AllValues-insert}
use patch_board.Store.Model.{
  StoreInstalledIdentity, StoreScanGeneration, VerifiedStoreIdentityMapping, verified_for,
  StoreProviderObservation,
}
use patch_board.Store.Inventory.{StorePackagedAppFamily}
use patch_board.Store.Snapshot.{StoreCatalogProviderRun, StoreScanSnapshot}
use patch_board.Store.Snapshot.Validated.{IsWellFormed}
use patch_board.Store.Pipeline.Sanitize.{
  in_scope, family_key, note_family, product_like_families_by_pfn, is_own, is_verified,
}
use patch_board.Store.Pipeline.Sound.{IsSound}
use patch_board.Store.Pipeline.Identities.{
  IdentityMap, insert_identity, AllEntries, AllEntries-insert_identity,
}
use patch_board.Store.Pipeline.Reuse.{
  reusable_for, note_reusable, reusable_store_mappings, started_reuse, reused_observation,
  append_mapping_reuse_observation,
}

abbrev pub InScope : StoreScanGeneration → StorePackagedAppFamily → Type 0
InScope scan family = in_scope scan family ≡ true

-- The map by family names holds families in scope only.
pub by_pfn-InScope :
    (scan : StoreScanGeneration) (families : List StorePackagedAppFamily)
    → AllValues (InScope scan) (product_like_families_by_pfn scan families)
unfolding product_like_families_by_pfn
by_pfn-InScope scan families =
    fold_left-keeps (note_family scan)
      (λ (m : Dict StorePackagedAppFamily). AllValues (InScope scan) m) [] families
      (λ m f listed h.
        if-cases (λ (n : Dict StorePackagedAppFamily). AllValues (InScope scan) n) (in_scope scan f)
          _ m (λ e. AllValues-insert (InScope scan) (family_key f) f m e h) (λ e. h))
      tt

-- The mapping was verified in the scan of the snapshot that it is taken from.
abbrev pub WasVerified :
    StoreScanGeneration → StoreInstalledIdentity → VerifiedStoreIdentityMapping → Type 0
WasVerified scan identity mapping = is_verified scan mapping ≡ true

note_reusable-WasVerified :
    (old : StoreScanGeneration) (by_pfn : Dict StorePackagedAppFamily) (now : ℕ)
    (version run_version : String) (m : IdentityMap VerifiedStoreIdentityMapping)
    (mapping : VerifiedStoreIdentityMapping)
    → is_verified old mapping ≡ true
    → AllEntries (WasVerified old) m
    → AllEntries (WasVerified old) (note_reusable by_pfn now version run_version m mapping)
unfolding note_reusable
note_reusable-WasVerified old by_pfn now version run_version m mapping v h =
    if-cases (λ (n : IdentityMap VerifiedStoreIdentityMapping). AllEntries (WasVerified old) n)
      (not (
        reusable_for (lookup (to_lower mapping.installed_identity.package_family_name) by_pfn)
          mapping run_version now version))
      m (insert_identity mapping.installed_identity mapping m) (λ e. h)
      (λ e. AllEntries-insert_identity (WasVerified old) mapping.installed_identity mapping m v h)

pub reusable-WasVerified :
    (s : StoreScanSnapshot) (by_pfn : Dict StorePackagedAppFamily) (now : ℕ) (version : String)
    → IsWellFormed s
    → AllEntries (WasVerified s.scan) (reusable_store_mappings (some s) by_pfn now version)
unfolding reusable_store_mappings
reusable-WasVerified s by_pfn now version well =
    let P : IdentityMap VerifiedStoreIdentityMapping → Type 0 = AllEntries (WasVerified s.scan) in
    if-cases P (not s.published || s.recovered_from_fallback) [] _ (λ e. tt)
      (λ e.
        fold_left-keeps _ P [] s.provider_runs
          (λ m run listed h.
            fold_left-keeps (note_reusable by_pfn now version run.version) P m run.mappings
              (λ n mapping held k.
                note_reusable-WasVerified s.scan by_pfn now version run.version n mapping
                  (well.mappings run mapping listed held) k)
              h)
          tt)

module _ (scan old : StoreScanGeneration) where
  abbrev pub SoundReuse : Option StoreCatalogProviderRun → Type 0
  SoundReuse none = Unit
  SoundReuse (some run) = IsSound scan run

  started_reuse-IsSound :
      (mapping : VerifiedStoreIdentityMapping) (o : StoreProviderObservation)
      (run : Option StoreCatalogProviderRun)
      → SoundReuse run
      → IsSound scan (started_reuse scan mapping o run)
  unfolding started_reuse all
  started_reuse-IsSound mapping o none h = record { observations = refl; mappings = refl }
  started_reuse-IsSound mapping o (some run) h = h

  reused-own :
      (family : StorePackagedAppFamily) (mapping : VerifiedStoreIdentityMapping)
      (o : StoreProviderObservation)
      → in_scope scan family ≡ true
      → is_own scan (reused_observation scan family mapping o) ≡ true
  unfolding is_own reused_observation
  reused-own family mapping o h = ground (arith, eq_refl scan.scan_id)

  reused-verified :
      (mapping : VerifiedStoreIdentityMapping) (evidence : String)
      → is_verified old mapping ≡ true
      → is_verified scan (record mapping { scan_id = scan.scan_id; evidence = evidence }) ≡ true
  unfolding verified_for
  reused-verified mapping evidence h = ground (arith, eq_refl scan.scan_id)

  pub append_mapping_reuse-IsSound :
      (run : Option StoreCatalogProviderRun) (family : StorePackagedAppFamily)
      (mapping : VerifiedStoreIdentityMapping) (o : StoreProviderObservation)
      → in_scope scan family ≡ true
      → is_verified old mapping ≡ true
      → SoundReuse run
      → IsSound scan (append_mapping_reuse_observation scan run family mapping o)
  unfolding append_mapping_reuse_observation
  append_mapping_reuse-IsSound run family mapping o i v h =
      let started = started_reuse-IsSound mapping o run h in
      record {
        observations =
            all-snoc (is_own scan) _ (reused_observation scan family mapping o) started.observations
              (reused-own family mapping o i);
        mappings = all-snoc (is_verified scan) _ _ started.mappings (reused-verified mapping _ v);
      }
