-- ===== src/Packages/Policy/Laws/Reasons.antt =====
-- Every refusal gives a reason, and what the interface shows as updatable is accepted by a job.
use Prim.Native.String.{◌++◌ as text_append}
use text.Mathlib.TextLemmas.{cons-append}
use patch_board.Common.{
  String, Bool, true, false, not, ◌&&◌, ◌||◌, Option, none, some, if◌then◌else◌, ◌≡◌, refl, sym,
  ◌∙◌, arith, inl, inr, Bool-cases, ◌⊎◌,
}
use patch_board.Common.Text.{
  str_eq, nonempty, trim_space, trim_left, trim_right, to_lower, equal_fold,
}
use patch_board.Packages.Model.{Package, store_installed_package_family_name}
use patch_board.Packages.Policy.{
  UpdateOptions, package_update_policy, update_refusal, overrides_refusal, policy_with,
  other_refusal, store_refusal, package_preference_eligible, exact_target_kind,
  state_label_for_reason, shown_state, no_options, apply_package_capabilities,
  package_has_exact_store_update_target, package_has_fresh_store_available_assessment,
}
use patch_board.Packages.Policy.Refusal.{IsActionable, Overridden, no_target}
use patch_board.Packages.Policy.Laws.{
  refusal_of-store, refusal_of-other, package_update_policy-IsActionable,
}

-- A refusal, where there is one, says something.
abbrev Says : Option String → Type 0
Says none = Unit
Says (some reason) = nonempty reason ≡ true

nonempty_first : (a b : String) → nonempty a ≡ true → nonempty (text_append a b) ≡ true
nonempty_first String.[] b h = ground arith
nonempty_first (String.◌∷◌ c a) b h = rw (cons-append c a b) refl

Says-if :
    (b : Bool) (r : String) (o : Option String)
    → nonempty r ≡ true
    → Says o
    → Says (if b then some r else o)
Says-if true r o h s = h
Says-if false r o h s = s

overrides-Says : (pkg : Package) (options : UpdateOptions) → Says (overrides_refusal pkg options)
unfolding overrides_refusal
overrides-Says pkg options =
    Says-if (pkg.unknown_version && not options.allow_unknown_version)
      "Unknown installed version requires the global unknown-version override." _ refl
      (Says-if (pkg.pinned && not options.allow_pinned)
        "Pinned package requires the global pinned update override." none refl tt)

other-Says : (pkg : Package) (options : UpdateOptions) → Says (other_refusal pkg options)
unfolding other_refusal
other-Says pkg options = Says-if (not pkg.update_available) "No update available." _ refl (
    Says-if (not pkg.update_supported) "Updates are not supported for this package." _ refl
      (overrides-Says pkg options))

store-Says :
    (sid : Option String) (pkg : Package) (options : UpdateOptions)
    → Says (store_refusal sid pkg options)
unfolding store_refusal
store-Says sid pkg options =
    Says-if (not (package_preference_eligible sid pkg)) "Store package identity is not exact." _
      refl
      (Says-if (not (equal_fold (trim_space pkg.update_state) "available"))
        (text_append "Store state is "
          (text_append (state_label_for_reason (shown_state pkg.update_state)) "."))
        _ (nonempty_first "Store state is " _ refl)
        (Says-if pkg.stale "Store update requires a fresh assessment; rescan required." _ refl (
          Says-if (no_target pkg) "Store update requires an exact verified action target." _ refl (
            Says-if (not pkg.update_supported)
              "No supported executor is available for this Store target." _ refl
              (overrides-Says pkg options)))))

update-Says :
    (sid : Option String) (pkg : Package) (options : UpdateOptions)
    → Says (update_refusal sid pkg options)
update-Says sid pkg options = elim (Bool-cases (str_eq pkg.manager "store")) [
  | inl e ↦ rw (refusal_of-store sid pkg options e) (store-Says sid pkg options)
  | inr e ↦ rw (refusal_of-other sid pkg options e) (other-Says pkg options)
]

reason_of_policy :
    (eligible : Bool) (kind : String) (o : Option String)
    → Says o
    → (policy_with eligible kind o).can_update_now
      ≡ not (nonempty (policy_with eligible kind o).cannot_update_reason)
reason_of_policy eligible kind none s = refl
reason_of_policy eligible kind (some r) s = rw (s) refl

-- A package may be updated now just when the policy gives no reason against it.
pub package_update_policy-reason :
    (sid : Option String) (pkg : Package) (options : UpdateOptions)
    → (package_update_policy sid pkg options).can_update_now
      ≡ not (nonempty (package_update_policy sid pkg options).cannot_update_reason)
unfolding package_update_policy
package_update_policy-reason sid pkg options =
    reason_of_policy (package_preference_eligible sid pkg)
      (exact_target_kind pkg.store_product_id pkg.store_update_id) (update_refusal sid pkg options)
      (update-Says sid pkg options)

granted :
    (pkg : Package) (options : UpdateOptions) → Overridden pkg no_options → Overridden pkg options
granted pkg options (u, p) = (λ h. ground (arith, u h), λ h. ground (arith, p h))

widened :
    (sid : Option String) (pkg : Package) (options : UpdateOptions)
    → IsActionable sid pkg no_options
    → IsActionable sid pkg options
widened sid pkg options (inl (m, a, s, o)) = inl (m, a, s, granted pkg options o)
widened sid pkg options (inr (m, a)) = inr (
  m,
  record {
    family_known = a.family_known;
    key_known = a.key_known;
    offered = a.offered;
    assessed_freshly = a.assessed_freshly;
    target_exact = a.target_exact;
    target_named = a.target_named;
    executable = a.executable;
    overridden = granted pkg options a.overridden;
  },
)

kind_of_policy :
    (eligible : Bool) (kind : String) (o : Option String)
    → (policy_with eligible kind o).exact_target_kind ≡ kind
kind_of_policy eligible kind none = refl
kind_of_policy eligible kind (some r) = refl

kinds :
    (sid : Option String) (pkg : Package) (options : UpdateOptions)
    → (package_update_policy sid pkg options).exact_target_kind
      ≡ exact_target_kind pkg.store_product_id pkg.store_update_id
unfolding package_update_policy
kinds sid pkg options =
    kind_of_policy (package_preference_eligible sid pkg)
      (exact_target_kind pkg.store_product_id pkg.store_update_id) (update_refusal sid pkg options)

-- A package that is shown as updatable is accepted by the policy under any options, with the target
-- kind that was shown.
pub apply_package_capabilities-can_update_now :
    (sid : Option String) (pkg : Package) (options : UpdateOptions)
    → (apply_package_capabilities sid pkg).can_update_now ≡ true
    → ((package_update_policy sid pkg options).can_update_now ≡ true)
      × ((apply_package_capabilities sid pkg).exact_target_kind
          ≡ (package_update_policy sid pkg options).exact_target_kind)
unfolding apply_package_capabilities
apply_package_capabilities-can_update_now sid pkg options h = (
  (package_update_policy-IsActionable sid pkg options).1
      (widened sid pkg options ((package_update_policy-IsActionable sid pkg no_options).0 h)),
  kinds sid pkg no_options ∙ sym (kinds sid pkg options),
)

state_of_trimmed : (s : String) → nonempty (trim_space s) ≡ true → nonempty s ≡ true
unfolding trim_space trim_left trim_right
state_of_trimmed String.[] h = h
state_of_trimmed (String.◌∷◌ c s) h = refl

state_of_fold : (s : String) → equal_fold s "available" ≡ true → nonempty s ≡ true
unfolding equal_fold to_lower
state_of_fold String.[] h = ground arith
state_of_fold (String.◌∷◌ c s) h = refl

exact_passes :
    (store state target family product update : Bool)
    → state ≡ true
    → target ≡ true
    → family ≡ true
    → (product ≡ true) ⊎ (update ≡ true)
    → (if not store
        then true
        else if not state
        then false
        else target && family && (product || update))
      ≡ true
exact_passes store state target family product update h i j k = ground arith

fresh_passes :
    (store state available stale : Bool)
    → state ≡ true
    → available ≡ true
    → stale ≡ false
    → (if not store then true else if not state then false else available && not stale) ≡ true
fresh_passes store state available stale h i j = ground arith

-- A package that may be updated now has, when it is the Store's, an exact target and a fresh
-- assessment that an update is available.
package_update_policy-exact :
    (sid : Option String) (pkg : Package) (options : UpdateOptions)
    → (package_update_policy sid pkg options).can_update_now ≡ true
    → (package_has_exact_store_update_target pkg ≡ true)
      × (package_has_fresh_store_available_assessment pkg ≡ true)
unfolding package_has_exact_store_update_target package_has_fresh_store_available_assessment
package_update_policy-exact sid pkg options h =
    elim ((package_update_policy-IsActionable sid pkg options).0 h) [
      | inl (m, a, b, c) ↦ ground arith
      | inr (m, a) ↦
          let named = a.target_named in
          let s = state_of_fold (trim_space pkg.update_state) a.offered in
          let t = state_of_trimmed pkg.update_state s in
          (
            exact_passes (str_eq pkg.manager "store") (nonempty pkg.update_state)
                pkg.exact_action_target_available
                (nonempty (store_installed_package_family_name pkg))
                (nonempty (trim_space pkg.store_product_id))
                (nonempty (trim_space pkg.store_update_id)) t a.target_exact a.family_known
                a.target_named,
            fresh_passes (str_eq pkg.manager "store") (nonempty (trim_space pkg.update_state))
                (equal_fold (trim_space pkg.update_state) "available") pkg.stale s a.offered
                a.assessed_freshly,
          )
    ]
