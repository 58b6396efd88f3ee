-- ===== src/Packages/InventoryRetry/Laws.antt =====
-- What a retry with fresh metadata may do.
use patch_board.Common.{
  String, Bool, true, false, not, ◌||◌, Option, none, some, List, [], ◌∷◌, if-cases, ◌≡◌, refl, inl,
  inr, ◌⊎◌, shown,
}
use patch_board.Commands.Result.{CommandResult, TextLimits}
use patch_board.Packages.Model.{Package}
use patch_board.Packages.Retry.{should_try_alternate_package_target}
use patch_board.Packages.Revalidation.{find_package_for_update_retry}
use patch_board.Packages.InventoryRetry.{
  same_package_update_target, Retried, with_options_of, retry_found,
  update_package_with_inventory_retry,
}

-- The update is run once; or once more for the package that the fresh inventory has, which still has
-- an update and is another target.
abbrev pub RetriesOnce : Option String → List Package → Package → Retried → Type 0
RetriesOnce sid refreshed pkg r =
    (r.updated ≡ pkg ∷ [])
    ⊎ ((found : Package) × (find_package_for_update_retry sid refreshed pkg ≡ some found)
        × (r.updated ≡ pkg ∷ with_options_of pkg found ∷ [])
        × (found.update_available ≡ true)
        × (same_package_update_target pkg (with_options_of pkg found) ≡ false))

module _ (limits : TextLimits) (run_update : Package → CommandResult) (sid : Option String)
    (refreshed : List Package) (pkg : Package) where
  found-RetriesOnce :
      (result : CommandResult) (o : Option Package)
      → find_package_for_update_retry sid refreshed pkg ≡ o
      → RetriesOnce sid refreshed pkg (retry_found limits run_update pkg result o)
  found-RetriesOnce result none h = inl refl
  found-RetriesOnce result (some found) h =
      let P = RetriesOnce sid refreshed pkg in
      if-cases P (not found.update_available) _ _ (λ e. inl refl)
        (λ e.
          if-cases P (same_package_update_target pkg (with_options_of pkg found)) _ _
            (λ s. inl refl) (λ s. inr (found, h, refl, shown found.update_available e, s)))

  -- An update runs once, or twice when the fresh inventory has the package with an update and another
  -- target; never more often.
  pub update_package_with_inventory_retry-RetriesOnce :
      (cancelled : Bool)
      → RetriesOnce sid refreshed pkg
          (update_package_with_inventory_retry limits run_update sid cancelled refreshed pkg)
  unfolding update_package_with_inventory_retry
  update_package_with_inventory_retry-RetriesOnce cancelled =
      let result = run_update pkg in
      if-cases (RetriesOnce sid refreshed pkg)
        (result.ok || cancelled || not (should_try_alternate_package_target result)) _
        (retry_found limits run_update pkg result (find_package_for_update_retry sid refreshed pkg))
        (λ e. inl refl)
        (λ e. found-RetriesOnce result (find_package_for_update_retry sid refreshed pkg) refl)
