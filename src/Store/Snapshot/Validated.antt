-- ===== src/Store/Snapshot/Validated.antt =====
-- What a valid snapshot contains.
use mathlib.Core.List.{Memᴰ}
use text.Mathlib.TextEquality.{eq_iff}
use patch_board.Common.{
  ◌<◌, String, true, false, ◌≡◌, ◌≢◌, ap, sym, ◌∙◌, arith, none, List, [], ◌∷◌, any, none-of-any,
}
use patch_board.Common.Text.{nonempty}
use patch_board.Store.Model.{
  StoreInstalledIdentity, resolved, VerifiedStoreIdentityMapping, verified_for,
  StoreProviderObservation,
}
use patch_board.Store.Inventory.{StorePackagedAppFamily}
use patch_board.Store.Snapshot.{
  StorePublishedAssessment, StoreCatalogProviderRun, StoreScanSnapshot, check_runs,
  check_assessments, validate_store_scan_snapshot, bad_family, bad_mapping, bad_observation,
  bad_assessment, bad_target,
}
use patch_board.Store.Snapshot.Normalized.{IsValidTarget, valid-IsValidTarget}

-- Evidence is the scan user's own: of a resolved identity, in the scan's generation.
abbrev pub IsOwn : StoreScanSnapshot → StoreInstalledIdentity → String → Type 0
IsOwn s identity scan_id =
    (resolved identity ≡ true) × (identity.user_sid ≡ s.scan.user_sid) × (scan_id ≡ s.scan.scan_id)

pub record IsWellFormed (s : StoreScanSnapshot) : Type 0 where
  pub scan_named : s.scan.scan_id ≢ ""
  pub user_named : s.scan.user_sid ≢ ""
  pub started : 0 < s.scan.started_at
  pub families :
      (f : StorePackagedAppFamily)
      → Memᴰ f s.inventory.families
      → (resolved f.identity ≡ true) × (f.identity.user_sid ≡ s.scan.user_sid)
  pub mappings :
      (run : StoreCatalogProviderRun) (m : VerifiedStoreIdentityMapping)
      → Memᴰ run s.provider_runs
      → Memᴰ m run.mappings
      → verified_for m m.installed_identity s.scan ≡ true
  pub observations :
      (run : StoreCatalogProviderRun) (o : StoreProviderObservation)
      → Memᴰ run s.provider_runs
      → Memᴰ o run.observations
      → IsOwn s o.identity o.scan_id
  pub assessments :
      (a : StorePublishedAssessment) → Memᴰ a s.assessments → IsOwn s a.identity a.scan_id
  pub targets :
      (a : StorePublishedAssessment)
      → Memᴰ a s.assessments
      → a.exact_action_target_available ≡ true
      → IsValidTarget a

module _ (s : StoreScanSnapshot) where
  runs_passed :
      (runs : List StoreCatalogProviderRun) (run : StoreCatalogProviderRun)
      → check_runs s runs ≡ none
      → Memᴰ run runs
      → (any (bad_mapping s) run.mappings ≡ false)
        × (any (bad_observation s) run.observations ≡ false)
  unfolding check_runs
  runs_passed [] run h m = elim m [ ]
  runs_passed (r ∷ runs) run h (Memᴰ.head e) = rw e (ground arith)
  runs_passed (r ∷ runs) run h (Memᴰ.tail m) = runs_passed runs run (ground arith) m

  assessments_passed :
      (as' : List StorePublishedAssessment) (a : StorePublishedAssessment)
      → check_assessments s as' ≡ none
      → Memᴰ a as'
      → (bad_assessment s a ≡ false) × (bad_target a ≡ false)
  unfolding check_assessments
  assessments_passed [] a h m = elim m [ ]
  assessments_passed (b ∷ bs) a h (Memᴰ.head e) = rw e (ground arith)
  assessments_passed (b ∷ bs) a h (Memᴰ.tail m) = assessments_passed bs a (ground arith) m

  passed :
      validate_store_scan_snapshot s ≡ none
      → (nonempty s.scan.scan_id ≡ true)
        × (nonempty s.scan.user_sid ≡ true)
        × (0 < s.scan.started_at)
        × (any (bad_family s) s.inventory.families ≡ false)
        × (check_runs s s.provider_runs ≡ none)
        × (check_assessments s s.assessments ≡ none)
  unfolding validate_store_scan_snapshot
  passed h = ground arith

  -- A snapshot that passes the validation is well formed.
  pub validate_store_scan_snapshot-IsWellFormed :
      validate_store_scan_snapshot s ≡ none → IsWellFormed s
  validate_store_scan_snapshot-IsWellFormed h =
      let (scan_named, user_named, started, families, runs, all_assessments) = passed h in
      record {
        scan_named = λ e. cc (sym (ap nonempty e) ∙ scan_named);
        user_named = λ e. cc (sym (ap nonempty e) ∙ user_named);
        started = started;
        families = λ f m.
            let ok : bad_family s f ≡ false =
              none-of-any (bad_family s) s.inventory.families families m in
            ground (arith, eq_iff f.identity.user_sid s.scan.user_sid);
        mappings = λ run m listed k.
            let ok : bad_mapping s m ≡ false =
              none-of-any (bad_mapping s) run.mappings (runs_passed _ run runs listed).0 k in
            ground arith;
        observations = λ run o listed k.
            let ok : bad_observation s o ≡ false =
              none-of-any (bad_observation s) run.observations (runs_passed _ run runs listed).1
                k in
            ground
              (arith, eq_iff o.identity.user_sid s.scan.user_sid, eq_iff o.scan_id s.scan.scan_id);
        assessments = λ a m.
            let ok = (assessments_passed _ a all_assessments m).0 in
            ground
              (arith, eq_iff a.identity.user_sid s.scan.user_sid, eq_iff a.scan_id s.scan.scan_id);
        targets = λ a m on.
            let ok = (assessments_passed _ a all_assessments m).1 in
            valid-IsValidTarget a (ground arith);
      }
