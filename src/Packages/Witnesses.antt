-- ===== src/Packages/Witnesses.antt =====
-- Concrete inputs for the laws of packages.
mod Jobs
use patch_board.Common.{true, false, not, none, some, ◌≡◌, ◌↔◌, refl}
use patch_board.Common.Text.{nonempty}
use patch_board.Packages.Model.{Package, is_managed_package_manager, package_key, split_package_key}
use patch_board.Packages.Model.Keys.{split-package_key}
use patch_board.Packages.Policy.{UpdateOptions, package_update_policy, apply_package_capabilities}
use patch_board.Packages.Policy.Refusal.{IsActionable}
use patch_board.Packages.Policy.Laws.{package_update_policy-IsActionable}
use patch_board.Packages.Policy.Laws.Reasons.{
  package_update_policy-reason, apply_package_capabilities-can_update_now,
}

abbrev pub store_app : Package
store_app = record {
  key = "store:Acme.App_1a";
  manager = "store";
  id = "Acme.App_1a";
  name = "App";
  version = "1.0";
  available_version = "1.2";
  update_available = true;
  update_supported = true;
  unknown_version = false;
  pinned = false;
  source = "native-appx";
  match = "";
  action_backend = "";
  update_state = "Available";
  observed_at = "";
  stale = false;
  scan_id = "scan-7";
  exact_action_target_available = true;
  installed_package_family_name = "Acme.App_1a";
  store_product_id = "9NBLGGH4NNS1";
  store_update_id = "";
  installed_version = "1.0";
  offered_version = "1.2";
  allow_unknown_version_update = false;
  allow_pinned_update = false;
  preference_eligible = false;
  can_update_now = false;
  cannot_update_reason = "";
  exact_target_kind = "none";
}

abbrev pub tool : Package
tool = record store_app {
  key = "winget:Acme.Tool";
  manager = "winget";
  id = "Acme.Tool";
  pinned = true;
}

abbrev pub strict : UpdateOptions
strict = record { allow_unknown_version = false; allow_pinned = false }

split-package_key_example :
    (split_package_key "winget:Acme:Tool" ≡ some ("winget", "Acme:Tool")) ↔ (
      ("winget:Acme:Tool" ≡ package_key "winget" "Acme:Tool")
      × (is_managed_package_manager "winget" ≡ true)
      × (nonempty "Acme:Tool" ≡ true))
split-package_key_example = split-package_key "winget:Acme:Tool" "winget" "Acme:Tool"

package_update_policy-IsActionable_example :
    ((package_update_policy (some "S-1-5") store_app strict).can_update_now ≡ true)
    ↔ IsActionable (some "S-1-5") store_app strict
package_update_policy-IsActionable_example =
    package_update_policy-IsActionable (some "S-1-5") store_app strict

package_update_policy-reason_example :
    (package_update_policy none tool strict).can_update_now
    ≡ not (nonempty (package_update_policy none tool strict).cannot_update_reason)
package_update_policy-reason_example = package_update_policy-reason none tool strict

tool_refused :
    (package_update_policy none tool strict).cannot_update_reason
    ≡ "Pinned package requires the global pinned update override."
unfolding package_update_policy
tool_refused = refl

store_app_shown : (apply_package_capabilities (some "S-1-5") store_app).can_update_now ≡ true
unfolding apply_package_capabilities patch_board.Common.Text.trim_space
    patch_board.Common.Text.equal_fold
store_app_shown = refl

store_app_accepted : (package_update_policy (some "S-1-5") store_app strict).can_update_now ≡ true
unfolding package_update_policy patch_board.Common.Text.trim_space
    patch_board.Common.Text.equal_fold
store_app_accepted = refl

apply_package_capabilities-can_update_now_example :
    ((package_update_policy (some "S-1-5") store_app strict).can_update_now ≡ true)
    × ((apply_package_capabilities (some "S-1-5") store_app).exact_target_kind
        ≡ (package_update_policy (some "S-1-5") store_app strict).exact_target_kind)
apply_package_capabilities-can_update_now_example =
    apply_package_capabilities-can_update_now (some "S-1-5") store_app strict store_app_shown
