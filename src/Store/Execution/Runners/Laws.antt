-- ===== src/Store/Execution/Runners/Laws.antt =====
-- What the default parts of the executor answer.
use mathlib.Core.List.{Memᴰ}
use patch_board.Common.{ℕ, true, not, List, [], ◌∷◌, if-cases, ◌≡◌, refl, arith, shown}
use patch_board.Commands.Result.{CommandResult}
use patch_board.Store.Model.{StoreInstalledIdentity, equal}
use patch_board.Store.Authorize.{StoreExactPackageSnapshot}
use patch_board.Store.Inventory.{StorePackagedAppFamily, version_text}
use patch_board.Store.Execution.Runners.{snapshot_from, packaged_snapshot}

-- A snapshot that says that the package exists shows the version and the health of an installed
-- family of the identity that was asked for.
abbrev pub Shows :
    StoreInstalledIdentity → List StorePackagedAppFamily → StoreExactPackageSnapshot → Type 0
Shows identity families s =
    (f : StorePackagedAppFamily) × Memᴰ f families
    × (equal f.identity identity ≡ true)
    × (s.version ≡ version_text f.primary.version)
    × (s.healthy ≡ f.primary.status.ok)

snapshot_from-Shows :
    (identity : StoreInstalledIdentity) (now : ℕ) (families : List StorePackagedAppFamily)
    → (snapshot_from identity now families).exists ≡ true
    → Shows identity families (snapshot_from identity now families)
unfolding snapshot_from
snapshot_from-Shows identity now [] = λ h. ground arith
snapshot_from-Shows identity now (f ∷ families) =
    if-cases (λ (s : StoreExactPackageSnapshot). s.exists ≡ true → Shows identity (f ∷ families) s)
      (not (equal f.identity identity)) (snapshot_from identity now families) _
      (λ e h.
        let (g, m, r, v, w) = snapshot_from-Shows identity now families h in
        (g, Memᴰ.tail m, r, v, w))
      (λ e h. (f, Memᴰ.head refl, shown _ e, refl, refl))

pub packaged_snapshot-Shows :
    (identity : StoreInstalledIdentity) (now : ℕ) (result : CommandResult)
    (families : List StorePackagedAppFamily)
    → (packaged_snapshot identity now result families).0.exists ≡ true
    → Shows identity families (packaged_snapshot identity now result families).0
unfolding packaged_snapshot
packaged_snapshot-Shows identity now result families =
    if-cases
      (λ (r : StoreExactPackageSnapshot × CommandResult).
        r.0.exists ≡ true → Shows identity families r.0)
      (not result.ok) _ (snapshot_from identity now families, result) (λ e h. ground arith)
      (λ e h. snapshot_from-Shows identity now families h)
