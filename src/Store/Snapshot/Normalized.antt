-- ===== src/Store/Snapshot/Normalized.antt =====
-- The exact targets of a normalised snapshot.
use mathlib.Core.List.{Memᴰ}
use text.Mathlib.TextEquality.{eq_iff}
use patch_board.Common.{
  String, true, not, ◌||◌, ◌≡◌, ap, sym, ◌∙◌, arith, inl, inr, some, [], ◌∷◌, Bool-cases,
  Option-cases, mem-of-map,
}
use patch_board.Common.Text.{nonempty, str_eq, trim_space}
use patch_board.Common.Text.Trim.{trim_space_idem, trim_space-nil, eq-nil_of_not_nonempty}
use patch_board.Store.Diagnostics.{first_non_empty}
use patch_board.Store.Model.{ExactStoreUpdateTarget, exact_for}
use patch_board.Store.Snapshot.{
  StorePublishedAssessment, StoreScanSnapshot, store_assessment_exact_target_valid, ids_match,
  normalize_exact_target, normalize_store_scan_snapshot_exact_targets, target_product_id,
  target_update_id, has_exact_target,
}

-- An executable assessment carries an exact target, and beside it the target's own IDs.
pub record IsExecutable (a : StorePublishedAssessment) : Type 0 where
  pub target : ExactStoreUpdateTarget
  pub carried : a.target ≡ some target
  pub exact : exact_for target a.identity ≡ true
  pub product : a.store_product_id ≡ trim_space target.product_id
  pub update : a.update_id ≡ trim_space target.update_id

-- An ID that is empty or the target's becomes the target's.
merged_id :
    (own target : String)
    → (not (nonempty (trim_space own)) || str_eq (trim_space own) (trim_space target)) ≡ true
    → trim_space (first_non_empty (own ∷ target ∷ [])) ≡ trim_space target
unfolding first_non_empty
merged_id own target h = ground (
  arith,
  eq_iff (trim_space own) (trim_space target),
  trim_space_idem own,
  trim_space_idem target,
  trim_space-nil,
  eq-nil_of_not_nonempty (trim_space target),
)

-- What a valid exact target is.
pub record IsValidTarget (a : StorePublishedAssessment) : Type 0 where
  pub target : ExactStoreUpdateTarget
  pub carried : a.target ≡ some target
  pub exact : exact_for target a.identity ≡ true
  pub matching : ids_match a (some target) ≡ true

pub valid-IsValidTarget :
    (a : StorePublishedAssessment) → store_assessment_exact_target_valid a ≡ true → IsValidTarget a
unfolding store_assessment_exact_target_valid
valid-IsValidTarget a h = elim (Option-cases a.target) [
  | inl e ↦ absurd (ground (arith, ap (has_exact_target a.identity) e))
  | inr (t, e) ↦ record {
    target = t;
    carried = e;
    exact = ground (arith, ap (has_exact_target a.identity) e);
    matching = ground (arith, ap (ids_match a) e);
  }
]

pub normalize-IsExecutable :
    (a : StorePublishedAssessment)
    → (normalize_exact_target a).exact_action_target_available ≡ true
    → IsExecutable (normalize_exact_target a)
unfolding normalize_exact_target
normalize-IsExecutable a h = elim (Bool-cases a.exact_action_target_available) [
  | inr off ↦ absurd (ground arith)
  | inl on ↦ elim (Bool-cases (store_assessment_exact_target_valid a)) [
    | inr bad ↦ absurd (ground arith)
    | inl good ↦
        let v = valid-IsValidTarget a good in
        record {
          target = v.target;
          carried = ground (arith, v.carried);
          exact = ground (arith, v.exact);
          product = ground (
            arith,
            v.matching,
            ap target_product_id v.carried,
            merged_id a.store_product_id v.target.product_id,
          );
          update = ground (
            arith,
            v.matching,
            ap target_update_id v.carried,
            merged_id a.update_id v.target.update_id,
          );
        }
  ]
]

-- After normalisation every assessment that claims an exact action target has one.
normalize_store_scan_snapshot-IsExecutable :
    (s : StoreScanSnapshot) (a : StorePublishedAssessment)
    → Memᴰ a (normalize_store_scan_snapshot_exact_targets s).assessments
    → a.exact_action_target_available ≡ true
    → IsExecutable a
unfolding normalize_store_scan_snapshot_exact_targets
normalize_store_scan_snapshot-IsExecutable s a m h =
    let (b, k, e) = mem-of-map normalize_exact_target s.assessments m in
    rw e (
      normalize-IsExecutable b
        (ap (λ (x : StorePublishedAssessment). x.exact_action_target_available) (sym e) ∙ h))
