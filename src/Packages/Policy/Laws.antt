-- ===== src/Packages/Policy/Laws.antt =====
-- What a package has that may be updated now.
pub mod Reasons
use patch_board.Common.{
  String, Bool, true, false, not, Option, none, some, if◌then◌else◌, ◌≡◌, refl, sym, ◌∙◌, ◌↔◌,
  arith, inl, inr, Bool-cases,
}
use patch_board.Common.Text.{str_eq}
use patch_board.Packages.Model.{Package}
use patch_board.Packages.Policy.{
  UpdateOptions, package_update_policy, update_refusal, other_refusal, store_refusal, policy_with,
  package_preference_eligible, exact_target_kind,
}
use patch_board.Packages.Policy.Refusal.{IsActionable, other-none, store-none}

can_iff :
    (eligible : Bool) (kind : String) (o : Option String)
    → ((policy_with eligible kind o).can_update_now ≡ true) ↔ (o ≡ none)
can_iff eligible kind none = (λ h. refl, λ h. refl)
can_iff eligible kind (some r) = (λ h. ground arith, λ h. ground arith)

unless_true {ℓ} : {A : Type ℓ} (b : Bool) (x y : A) → b ≡ true → (if not b then x else y) ≡ y
unless_true b x y h = ground arith

unless_false {ℓ} : {A : Type ℓ} (b : Bool) (x y : A) → b ≡ false → (if not b then x else y) ≡ x
unless_false b x y h = ground arith

refusal_of-store :
    (sid : Option String) (pkg : Package) (options : UpdateOptions)
    → str_eq pkg.manager "store" ≡ true
    → update_refusal sid pkg options ≡ store_refusal sid pkg options
unfolding update_refusal
refusal_of-store sid pkg options h =
    unless_true (str_eq pkg.manager "store") (other_refusal pkg options)
      (store_refusal sid pkg options) h

refusal_of-other :
    (sid : Option String) (pkg : Package) (options : UpdateOptions)
    → str_eq pkg.manager "store" ≡ false
    → update_refusal sid pkg options ≡ other_refusal pkg options
unfolding update_refusal
refusal_of-other sid pkg options h =
    unless_false (str_eq pkg.manager "store") (other_refusal pkg options)
      (store_refusal sid pkg options) h

refusal-none :
    (sid : Option String) (pkg : Package) (options : UpdateOptions)
    → (update_refusal sid pkg options ≡ none) ↔ IsActionable sid pkg options
refusal-none sid pkg options =
    let o = other-none pkg options in
    elim (Bool-cases (str_eq pkg.manager "store")) [
      | inl e ↦
          let s = store-none sid pkg options e in
          let r = refusal_of-store sid pkg options e in
          (
            λ h. inr (e, s.0 (sym r ∙ h)),
            λ h. elim h [ inl n ↦ ground arith | inr (m, a) ↦ r ∙ s.1 a ],
          )
      | inr e ↦
          let r = refusal_of-other sid pkg options e in
          (
            λ h. let (a, b, c) = o.0 (sym r ∙ h) in inl (e, a, b, c),
            λ h. elim h [ inl (m, a, b, c) ↦ r ∙ o.1 (a, b, c) | inr n ↦ ground arith ],
          )
    ]

-- A package may be updated now just when it is actionable: for a package that is not the Store's, an
-- update is available and supported; for one of the Store's, its family and its key are known, its
-- state is an available update, freshly assessed, with an exact target that names a product or an
-- update, and an executor supports it. In both cases an unknown version or a pin must be overridden.
pub package_update_policy-IsActionable :
    (sid : Option String) (pkg : Package) (options : UpdateOptions)
    → ((package_update_policy sid pkg options).can_update_now ≡ true) ↔ IsActionable sid pkg options
unfolding package_update_policy update_refusal
package_update_policy-IsActionable sid pkg options =
    let c =
      can_iff (package_preference_eligible sid pkg)
        (exact_target_kind pkg.store_product_id pkg.store_update_id)
        (update_refusal sid pkg options) in
    let r = refusal-none sid pkg options in (λ h. r.0 (c.0 h), λ h. c.1 (r.1 h))
