-- ===== src/Packages/Policy/Refusal.antt =====
-- When the tests of packageUpdatePolicy let a package pass.
use Prim.Native.String.{◌++◌ as text_append}
use patch_board.Common.{
  String, Bool, true, false, not, ◌||◌, Option, none, some, if◌then◌else◌, ◌≡◌, refl, ◌↔◌, arith,
  inl, inr, Bool-cases, ◌⊎◌,
}
use patch_board.Common.Text.{str_eq, nonempty, trim_space, equal_fold}
use patch_board.Packages.Model.{
  Package, store_installed_package_family_name, normalized_job_package_key,
}
use patch_board.Packages.Policy.{
  UpdateOptions, other_refusal, store_refusal, overrides_refusal, package_preference_eligible,
  exact_target_kind, state_label_for_reason, shown_state,
}

-- A state that needs leave has it.
abbrev pub Allowed : Bool → Bool → Type 0
Allowed needed leave = needed ≡ true → leave ≡ true

abbrev pub Overridden : Package → UpdateOptions → Type 0
Overridden pkg options =
    Allowed pkg.unknown_version options.allow_unknown_version
    × Allowed pkg.pinned options.allow_pinned

pub record StoreActionable (sid : Option String) (pkg : Package) (options : UpdateOptions)
    : Type 0 where
  pub family_known : nonempty (store_installed_package_family_name pkg) ≡ true
  pub key_known : nonempty (normalized_job_package_key sid pkg) ≡ true
  pub offered : equal_fold (trim_space pkg.update_state) "available" ≡ true
  pub assessed_freshly : pkg.stale ≡ false
  pub target_exact : pkg.exact_action_target_available ≡ true
  pub target_named :
      (nonempty (trim_space pkg.store_product_id) ≡ true)
      ⊎ (nonempty (trim_space pkg.store_update_id) ≡ true)
  pub executable : pkg.update_supported ≡ true
  pub overridden : Overridden pkg options

abbrev pub IsActionable : Option String → Package → UpdateOptions → Type 0
IsActionable sid pkg options =
    ((str_eq pkg.manager "store" ≡ false)
      × (pkg.update_available ≡ true)
      × (pkg.update_supported ≡ true)
      × Overridden pkg options)
    ⊎ ((str_eq pkg.manager "store" ≡ true) × StoreActionable sid pkg options)

-- A chain of five early returns is passed when no test holds.
five_pass {ℓ} :
    {A : Type ℓ} (b c d e f : Bool) (u v w x y : A) (o : Option A)
    → ((if b
          then some u
          else if c
          then some v
          else if d
          then some w
          else if e
          then some x
          else if f
          then some y
          else o)
        ≡ none)
      ↔ ((b ≡ false) × (c ≡ false) × (d ≡ false) × (e ≡ false) × (f ≡ false) × (o ≡ none))
five_pass b c d e f u v w x y o = ground arith

overrides-none :
    (pkg : Package) (options : UpdateOptions)
    → (overrides_refusal pkg options ≡ none) ↔ Overridden pkg options
unfolding overrides_refusal
overrides-none pkg options = ground arith

named_kind :
    (p u : String)
    → (nonempty (trim_space p) ≡ true) ⊎ (nonempty (trim_space u) ≡ true)
    → str_eq (exact_target_kind p u) "none" ≡ false
unfolding exact_target_kind
named_kind p u h = elim (Bool-cases (nonempty (trim_space p))) [
  | inl e ↦ elim (Bool-cases (nonempty (trim_space u))) [
    | inl f ↦ rw (e, f, exact_target_kind) refl
    | inr f ↦ rw (e, f, exact_target_kind) refl
  ]
  | inr e ↦ elim (Bool-cases (nonempty (trim_space u))) [
    | inl f ↦ rw (e, f, exact_target_kind) refl
    | inr f ↦ ground arith
  ]
]

kind_named :
    (p u : String)
    → str_eq (exact_target_kind p u) "none" ≡ false
    → (nonempty (trim_space p) ≡ true) ⊎ (nonempty (trim_space u) ≡ true)
unfolding exact_target_kind
kind_named p u h = elim (Bool-cases (nonempty (trim_space p))) [
  | inl e ↦ inl e
  | inr e ↦ elim (Bool-cases (nonempty (trim_space u))) [
    | inl f ↦ inr f
    | inr f ↦
        let q : str_eq (exact_target_kind p u) "none" ≡ true = rw (e, f, exact_target_kind) refl in
        cc
  ]
]

pub other-none :
    (pkg : Package) (options : UpdateOptions)
    → (other_refusal pkg options ≡ none)
      ↔ ((pkg.update_available ≡ true) × (pkg.update_supported ≡ true) × Overridden pkg options)
unfolding other_refusal
other-none pkg options = ground (arith, overrides-none pkg options)

abbrev pub no_target : Package → Bool
no_target pkg =
    not pkg.exact_action_target_available
    || str_eq (exact_target_kind pkg.store_product_id pkg.store_update_id) "none"

store-passes :
    (sid : Option String) (pkg : Package) (options : UpdateOptions)
    → (store_refusal sid pkg options ≡ none) ↔ (
        (not (package_preference_eligible sid pkg) ≡ false)
        × (not (equal_fold (trim_space pkg.update_state) "available") ≡ false)
        × (pkg.stale ≡ false)
        × (no_target pkg ≡ false)
        × (not pkg.update_supported ≡ false)
        × (overrides_refusal pkg options ≡ none))
unfolding store_refusal
store-passes sid pkg options =
    five_pass (not (package_preference_eligible sid pkg))
      (not (equal_fold (trim_space pkg.update_state) "available")) pkg.stale (no_target pkg)
      (not pkg.update_supported) "Store package identity is not exact."
      (text_append "Store state is "
        (text_append (state_label_for_reason (shown_state pkg.update_state)) "."))
      "Store update requires a fresh assessment; rescan required."
      "Store update requires an exact verified action target."
      "No supported executor is available for this Store target." (overrides_refusal pkg options)

eligible-known :
    (sid : Option String) (pkg : Package)
    → str_eq pkg.manager "store" ≡ true
    → (package_preference_eligible sid pkg ≡ true) ↔ (
        (nonempty (store_installed_package_family_name pkg) ≡ true)
        × (nonempty (normalized_job_package_key sid pkg) ≡ true))
unfolding package_preference_eligible
eligible-known sid pkg h = ground arith

not-false : (b : Bool) → (not b ≡ false) ↔ (b ≡ true)
not-false b = ground arith

or-false : (b c : Bool) → ((not b || c) ≡ false) ↔ ((b ≡ true) × (c ≡ false))
or-false b c = ground arith

pub store-none :
    (sid : Option String) (pkg : Package) (options : UpdateOptions)
    → str_eq pkg.manager "store" ≡ true
    → (store_refusal sid pkg options ≡ none) ↔ StoreActionable sid pkg options
store-none sid pkg options m = (
  λ h.
      let (q, f, s, t, u, o) = (store-passes sid pkg options).0 h in
      let k = (eligible-known sid pkg m).0 ((not-false _).0 q) in
      let g = (or-false _ _).0 t in
      record {
        family_known = k.0;
        key_known = k.1;
        offered = (not-false _).0 f;
        assessed_freshly = s;
        target_exact = g.0;
        target_named = kind_named pkg.store_product_id pkg.store_update_id g.1;
        executable = (not-false _).0 u;
        overridden = (overrides-none pkg options).0 o;
      },
  λ a. (store-passes sid pkg options).1 (
    (not-false _).1 ((eligible-known sid pkg m).1 (a.family_known, a.key_known)),
    (not-false _).1 a.offered,
    a.assessed_freshly,
    (or-false _ _).1
        (a.target_exact, named_kind pkg.store_product_id pkg.store_update_id a.target_named),
    (not-false _).1 a.executable,
    (overrides-none pkg options).1 a.overridden,
  ),
)
