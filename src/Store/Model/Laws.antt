-- ===== src/Store/Model/Laws.antt =====
-- What the tests on identities and provider keys establish.
use text.Mathlib.TextEquality.{eq_iff}
use text.Mathlib.TextPositions.{eq_refl}
use patch_board.Common.{◌≡◌, refl, true, arith, String, if◌then◌else◌}
use patch_board.Common.Text.{nonempty}
use patch_board.Store.Model.{
  StoreInstalledIdentity, equal, StoreProviderIdentity, provider_key, store_provider_key,
}

pub equal_refl : (i : StoreInstalledIdentity) → equal i i ≡ true
unfolding equal
equal_refl i = rw (eq_refl i.user_sid, eq_refl i.package_family_name)

pub eq_of_equal : (i j : StoreInstalledIdentity) → equal i j ≡ true → i ≡ j
unfolding equal
eq_of_equal i j h =
    ground (arith, eq_iff i.user_sid j.user_sid, eq_iff i.package_family_name j.package_family_name)

nonempty-or_unknown : (s : String) → nonempty (if nonempty s then s else "unknown") ≡ true
nonempty-or_unknown String.[] = refl
nonempty-or_unknown (String.◌∷◌ c s) = refl

-- A provider always has a key to report by.
pub nonempty-store_provider_key :
    (p : StoreProviderIdentity) → nonempty (store_provider_key p) ≡ true
unfolding store_provider_key
nonempty-store_provider_key p = nonempty-or_unknown (provider_key p)
