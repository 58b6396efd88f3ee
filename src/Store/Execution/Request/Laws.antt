-- ===== src/Store/Execution/Request/Laws.antt =====
-- What a request that could be built rests on.
use patch_board.Common.{
  shown, String, Bool, true, false, not, ◌&&◌, ◌||◌, none, some, [], ◌∷◌, if◌then◌else◌, ◌≡◌, refl,
  sym, ◌∙◌, ap, inl, inr, ◌⊎◌, arith, Option-cases,
}
use patch_board.Common.Text.{str_eq, nonempty, trim_space}
use patch_board.Packages.Model.{Package, store_installed_package_family_name}
use patch_board.Packages.Policy.{package_update_policy}
use patch_board.Packages.Policy.Refusal.{IsActionable}
use patch_board.Packages.Policy.Laws.{package_update_policy-IsActionable}
use patch_board.Store.Model.{StoreProviderIdentity, looks_like_store_product_id}
use patch_board.Store.Diagnostics.{first_non_empty}
use patch_board.Store.Authorize.{
  StoreExactUpdateRequest, Authorization, verify_published_store_update_assessment,
}
use patch_board.Store.Execution.Request.{
  Surroundings, RequestError, Built, failed, built, winget_provider, store_provider, own_options,
  exact_store_update_execution_provider, request_of, if_authorized, with_provider, with_user,
  exact_store_update_request_from_package,
}

-- The executor can be run: WinGet for a product ID, or else the Store's for any target.
abbrev IsRunnable : Surroundings → String → String → StoreProviderIdentity → Type 0
IsRunnable world product_id update_id provider =
    ((provider ≡ winget_provider) × (nonempty product_id ≡ true) × (world.winget_available ≡ true))
    ⊎ ((provider ≡ store_provider)
        × ((nonempty product_id || nonempty update_id) ≡ true)
        × (world.store_available ≡ true))

pub record IsSound (world : Surroundings) (pkg : Package) (request : StoreExactUpdateRequest)
    : Type 0 where
  pub store_package : str_eq pkg.manager "store" ≡ true
  pub actionable : IsActionable world.user_sid pkg (own_options pkg)
  pub same_user : world.user_sid ≡ some request.identity.user_sid
  pub same_family : request.identity.package_family_name ≡ store_installed_package_family_name pkg
  pub family_known : nonempty request.identity.package_family_name ≡ true
  pub target_known : nonempty request.target ≡ true
  pub product_valid :
      nonempty request.product_id ≡ true → looks_like_store_product_id request.product_id ≡ true
  pub runnable :
      IsRunnable world
        (trim_space request.product_id)
        (trim_space request.update_id)
        request.provider
  pub authorized :
      verify_published_store_update_assessment world.now request world.loaded
      ≡ Authorization.authorized

-- An early return with an error is not what gave the result.
passed {ℓ} :
    {A : Type ℓ} (test : Bool) (e : RequestError) (rest : Built A) (a : A)
    → (if test then failed e else rest) ≡ built a
    → (test ≡ false) × (rest ≡ built a)
passed true e rest a h = ground arith
passed false e rest a h = (refl, h)

either_way {ℓ} :
    {A : Type ℓ} (test : Bool) (a : A) (rest : Built A) (b : A)
    → (if test then built a else rest) ≡ built b
    → ((test ≡ true) × (b ≡ a)) ⊎ ((test ≡ false) × (rest ≡ built b))
either_way true a rest b h = inl (refl, cc)
either_way false a rest b h = inr (refl, h)

choice :
    (bad product update winget store : Bool) (provider : StoreProviderIdentity)
    → (if bad
        then failed RequestError.bad_product
        else if product && winget
        then built winget_provider
        else if (product || update) && store
        then built store_provider
        else failed RequestError.no_executor)
      ≡ built provider
    → ((provider ≡ winget_provider) × (product ≡ true) × (winget ≡ true))
      ⊎ ((provider ≡ store_provider) × ((product || update) ≡ true) × (store ≡ true))
choice bad product update winget store provider h =
    let (_, p) = passed bad _ _ provider h in
    elim (either_way (product && winget) winget_provider _ provider p) [
      | inl (t, e) ↦ inl (e, ground arith, ground arith)
      | inr (t, q) ↦ elim (either_way ((product || update) && store) store_provider _ provider q) [
        | inl (u, e) ↦ inr (e, ground arith, ground arith)
        | inr (u, n) ↦ ground arith
      ]
    ]

provider-IsRunnable :
    (world : Surroundings) (product_id update_id : String) (provider : StoreProviderIdentity)
    → exact_store_update_execution_provider world product_id update_id ≡ built provider
    → IsRunnable world (trim_space product_id) (trim_space update_id) provider
unfolding exact_store_update_execution_provider
provider-IsRunnable world product_id update_id provider h =
    choice
      (nonempty (trim_space product_id)
        && not (looks_like_store_product_id (trim_space product_id)))
      (nonempty (trim_space product_id)) (nonempty (trim_space update_id)) world.winget_available
      world.store_available provider h

authorized_built :
    (r request : StoreExactUpdateRequest) (a : Authorization)
    → if_authorized r a ≡ built request
    → (a ≡ Authorization.authorized) × (r ≡ request)
authorized_built r request Authorization.authorized h = (refl, cc)
authorized_built r request Authorization.not_opened h = ground arith
authorized_built r request Authorization.not_read h = ground arith
authorized_built r request Authorization.no_match h = ground arith
authorized_built r request Authorization.superseded h = ground arith
authorized_built r request Authorization.not_available h = ground arith
authorized_built r request (Authorization.not_fresh reason) h = ground arith
authorized_built r request Authorization.other_product h = ground arith
authorized_built r request Authorization.other_update h = ground arith

implied : (b c : Bool) → (b && not c) ≡ false → b ≡ true → c ≡ true
implied b c h n = ground arith

refused_last : (b c : Bool) → (not b || not c) ≡ false → c ≡ true
refused_last b c h = ground arith

-- What the first tests have shown.
record Checked (world : Surroundings) (pkg : Package) : Type 0 where
  store_package : str_eq pkg.manager "store" ≡ true
  actionable : IsActionable world.user_sid pkg (own_options pkg)
  family_known : nonempty (store_installed_package_family_name pkg) ≡ true

with_provider-IsSound :
    (world : Surroundings) (pkg : Package) (sid : String) (request : StoreExactUpdateRequest)
    (provider : StoreProviderIdentity)
    → Checked world pkg
    → world.user_sid ≡ some sid
    → (nonempty (trim_space pkg.store_product_id)
        && not (looks_like_store_product_id (trim_space pkg.store_product_id)))
      ≡ false
    → nonempty
        (first_non_empty (trim_space pkg.store_product_id ∷ trim_space pkg.store_update_id ∷ []))
      ≡ true
    → exact_store_update_execution_provider world
        (trim_space pkg.store_product_id)
        (trim_space pkg.store_update_id)
      ≡ built provider
    → with_provider world pkg sid (built provider) ≡ built request
    → IsSound world pkg request
unfolding request_of
with_provider-IsSound world pkg sid request provider c u valid target p h =
    let (a, r) = authorized_built (request_of pkg sid provider) request _ h in
    let sound : IsSound world pkg (request_of pkg sid provider) = record {
      store_package = c.store_package;
      actionable = c.actionable;
      same_user = u;
      same_family = refl;
      family_known = c.family_known;
      target_known = target;
      product_valid = λ n. implied _ _ valid n;
      runnable =
          provider-IsRunnable world (trim_space pkg.store_product_id)
            (trim_space pkg.store_update_id) provider p;
      authorized = a;
    } in
    rw (sym r) sound

with_chosen :
    (world : Surroundings) (pkg : Package) (sid : String) (request : StoreExactUpdateRequest)
    → Checked world pkg
    → world.user_sid ≡ some sid
    → (nonempty (trim_space pkg.store_product_id)
        && not (looks_like_store_product_id (trim_space pkg.store_product_id)))
      ≡ false
    → nonempty
        (first_non_empty (trim_space pkg.store_product_id ∷ trim_space pkg.store_update_id ∷ []))
      ≡ true
    → (chosen : Built StoreProviderIdentity)
    → exact_store_update_execution_provider world
        (trim_space pkg.store_product_id)
        (trim_space pkg.store_update_id)
      ≡ chosen
    → with_provider world pkg sid chosen ≡ built request
    → IsSound world pkg request
with_chosen world pkg sid request c u v t (failed e) p h = ground arith
with_chosen world pkg sid request c u v t (built provider) p h =
    with_provider-IsSound world pkg sid request provider c u v t p h

with_user-IsSound :
    (world : Surroundings) (pkg : Package) (sid : String) (request : StoreExactUpdateRequest)
    → Checked world pkg
    → world.user_sid ≡ some sid
    → with_user world pkg (some sid) ≡ built request
    → IsSound world pkg request
with_user-IsSound world pkg sid request c u h =
    let (v, h1) =
      passed
        (nonempty (trim_space pkg.store_product_id)
          && not (looks_like_store_product_id (trim_space pkg.store_product_id)))
        RequestError.bad_product _ request h in
    let (t, h2) = passed _ RequestError.no_target _ request h1 in
    with_chosen world pkg sid request c u v (refused_last _ _ t) _ refl h2

-- A request that is built is the Store package's own: the package is actionable under the options it
-- carries, the identity is the user's and the package's family, the target is given and a product ID
-- is well-formed, the executor can be run, and the published evidence authorises it.
pub exact_store_update_request_from_package-IsSound :
    (world : Surroundings) (pkg : Package) (request : StoreExactUpdateRequest)
    → exact_store_update_request_from_package world pkg ≡ built request
    → IsSound world pkg request
unfolding exact_store_update_request_from_package
exact_store_update_request_from_package-IsSound world pkg request h =
    let policy = package_update_policy world.user_sid pkg (own_options pkg) in
    let (s, h1) = passed (not (str_eq pkg.manager "store")) RequestError.not_store _ request h in
    let (p, h2) = passed (not policy.can_update_now) _ _ request h1 in
    let (f, h3) =
      passed (not (nonempty (store_installed_package_family_name pkg))) _ _ request h2 in
    let c : Checked world pkg = record {
      store_package = shown _ s;
      actionable =
          (package_update_policy-IsActionable world.user_sid pkg (own_options pkg)).0 (shown _ p);
      family_known = shown _ f;
    } in
    elim (Option-cases world.user_sid) [
      | inl n ↦
          let q : with_user world pkg none ≡ built request =
            ap (with_user world pkg) (sym n) ∙ h3 in
          ground arith
      | inr (sid, u) ↦
          with_user-IsSound world pkg sid request c u (ap (with_user world pkg) (sym u) ∙ h3)
    ]
