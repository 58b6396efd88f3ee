-- ===== src/Store/Authorize/Laws.antt =====
-- What published evidence authorises.
use mathlib.Core.List.{Memᴰ}
use patch_board.Common.{ℕ, ◌≡◌, ◌↔◌, refl, ◌<◌, arith, true, List, [], ◌∷◌, inl, inr, Bool-cases}
use patch_board.Common.Text.{str_eq, nonempty}
use patch_board.Store.Model.{equal, StoreUpdateState}
use patch_board.Store.Snapshot.{StoreScanSnapshot, StorePublishedAssessment}
use patch_board.Store.Freshness.{evaluate_published_store_assessment_freshness}
use patch_board.Store.Freshness.Laws.{
  IsFresh, evaluate_published_store_assessment_freshness-IsFresh,
}
use patch_board.Store.Authorize.{
  StoreExactUpdateRequest, Loaded, Authorization, assessed_id, authorize, authorize_first,
  is_available, verify_published_store_update_assessment,
}

-- The evidence that an authorised request rests on.
pub record Warrant (now : ℕ) (request : StoreExactUpdateRequest) (snapshot : StoreScanSnapshot)
    (a : StorePublishedAssessment) : Type 0 where
  pub listed : Memᴰ a snapshot.assessments
  pub same_identity : equal a.identity request.identity ≡ true
  pub same_scan : str_eq a.scan_id request.scan_id ≡ true
  pub is_update : a.state ≡ StoreUpdateState.available
  pub actionable : a.exact_action_target_available ≡ true
  pub fresh : IsFresh snapshot a request.current_installed_version now
  pub same_product :
      nonempty request.product_id ≡ true
      → str_eq
          (assessed_id a.store_product_id (λ target. target.product_id) a.target)
          request.product_id
        ≡ true
  pub same_update :
      nonempty request.update_id ≡ true
      → str_eq (assessed_id a.update_id (λ target. target.update_id) a.target) request.update_id
        ≡ true

state_of :
    (state : StoreUpdateState) → is_available state ≡ true → state ≡ StoreUpdateState.available
state_of StoreUpdateState.available h = refl
state_of StoreUpdateState.unknown h = ground arith
state_of StoreUpdateState.current h = ground arith
state_of StoreUpdateState.conflict h = ground arith
state_of StoreUpdateState.inapplicable h = ground arith
state_of StoreUpdateState.pending h = ground arith

authorize-IsFresh :
    (now : ℕ) (request : StoreExactUpdateRequest) (snapshot : StoreScanSnapshot)
    (a : StorePublishedAssessment)
    → 0 < now
    → authorize now request snapshot a ≡ Authorization.authorized
    → IsFresh snapshot a request.current_installed_version now
unfolding authorize
authorize-IsFresh now request snapshot a pos h = law.0 is_fresh
  where
    law :
        ((evaluate_published_store_assessment_freshness now snapshot a
            request.current_installed_version now).fresh
          ≡ true)
        ↔ IsFresh snapshot a request.current_installed_version now
    law =
        evaluate_published_store_assessment_freshness-IsFresh now snapshot a
          request.current_installed_version now pos

    is_fresh :
        (evaluate_published_store_assessment_freshness now snapshot a
          request.current_installed_version now).fresh
        ≡ true
    is_fresh = ground arith

authorize-Warrant :
    (now : ℕ) (request : StoreExactUpdateRequest) (snapshot : StoreScanSnapshot)
    (a : StorePublishedAssessment)
    → 0 < now
    → Memᴰ a snapshot.assessments
    → equal a.identity request.identity ≡ true
    → authorize now request snapshot a ≡ Authorization.authorized
    → Warrant now request snapshot a
unfolding authorize
authorize-Warrant now request snapshot a pos listed same h = record {
  listed = listed;
  same_identity = same;
  same_scan = ground arith;
  is_update = state_of a.state (ground arith);
  actionable = ground arith;
  fresh = authorize-IsFresh now request snapshot a pos h;
  same_product = λ given. ground arith;
  same_update = λ given. ground arith;
}

authorize_first-Warrant :
    (now : ℕ) (request : StoreExactUpdateRequest) (snapshot : StoreScanSnapshot)
    (assessments : List StorePublishedAssessment)
    → 0 < now
    → ((a : StorePublishedAssessment) → Memᴰ a assessments → Memᴰ a snapshot.assessments)
    → authorize_first now request snapshot assessments ≡ Authorization.authorized
    → (a : StorePublishedAssessment) × Warrant now request snapshot a
unfolding authorize_first
authorize_first-Warrant now request snapshot [] pos listed h = ground arith
authorize_first-Warrant now request snapshot (a ∷ assessments) pos listed h =
    elim (Bool-cases (equal a.identity request.identity)) [
      | inl same ↦ (
        a,
        authorize-Warrant now request snapshot a pos (listed a (Memᴰ.head refl)) same
            (ground arith),
      )
      | inr other ↦
          authorize_first-Warrant now request snapshot assessments pos
            (λ b m. listed b (Memᴰ.tail m)) (ground arith)
    ]

-- At a time after the zero time, a request that is authorised rests on a published snapshot that lists an assessment of the same
-- identity and scan, that offers an update with an actionable target and fresh evidence, and whose
-- product and update IDs are those that the request names.
pub verify_published_store_update_assessment-IsWarranted :
    (now : ℕ) (request : StoreExactUpdateRequest) (loaded : Loaded)
    → 0 < now
    → verify_published_store_update_assessment now request loaded ≡ Authorization.authorized
    → (snapshot : StoreScanSnapshot) × (loaded ≡ Loaded.published snapshot)
      × ((a : StorePublishedAssessment) × Warrant now request snapshot a)
unfolding verify_published_store_update_assessment
verify_published_store_update_assessment-IsWarranted now request Loaded.open_failed pos h =
    ground arith
verify_published_store_update_assessment-IsWarranted now request Loaded.read_failed pos h =
    ground arith
verify_published_store_update_assessment-IsWarranted now request Loaded.none_published pos h =
    ground arith
verify_published_store_update_assessment-IsWarranted now request (Loaded.published snapshot) pos h =
    (
      snapshot,
      refl,
      authorize_first-Warrant now request snapshot snapshot.assessments pos (λ b m. m) h,
    )
