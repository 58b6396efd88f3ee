-- ===== src/Packages/Witnesses/Jobs.antt =====
-- Concrete inputs for the laws of update jobs, of attempts and of targets.
use mathlib.Core.List.{Memᴰ}
use patch_board.Common.{ℕ, zero, suc, ◌≤◌, String, true, false, none, List, [], ◌∷◌, ◌≡◌, refl, leb}
use patch_board.Common.Text.{trim_space}
use patch_board.Commands.Result.{CommandResult, TextLimits}
use patch_board.Packages.Model.{Package}
use patch_board.Packages.Selection.{inventory, chosen, taken, update_job_packages}
use patch_board.Packages.Selection.Job.{IsSelection, update_job_packages-IsSelection}
use patch_board.Packages.Attempts.{Trial, run_package_action_command}
use patch_board.Packages.Attempts.Laws.{
  actions, Succeeded, actions-run_package_action_command, run_package_action_command-Succeeded,
}
use patch_board.Packages.Retry.{normalize_package_action_result}
use patch_board.Packages.Retry.Laws.{IsNormal, normalize_package_action_result-IsNormal}
use patch_board.Packages.Targets.{run_package_update_candidates}
use patch_board.Packages.Targets.Laws.{IsSafe, run_package_update_candidates-IsSafe}
use patch_board.Packages.Witnesses.{store_app, tool, strict}

abbrev free_tool : Package
free_tool = record tool { pinned = false }

abbrev requested : List String
requested = "winget:Acme.Tool" ∷ "winget:Acme.Tool" ∷ []

abbrev selected : List Package
selected = taken strict "winget:Acme.Tool" free_tool ∷ []

tool_chosen :
    update_job_packages none (inventory (free_tool ∷ store_app ∷ [])) requested strict
    ≡ chosen selected "selected"
unfolding update_job_packages trim_space
tool_chosen = refl

update_job_packages-IsSelection_example :
    IsSelection none (free_tool ∷ store_app ∷ []) requested strict selected
update_job_packages-IsSelection_example =
    update_job_packages-IsSelection none (free_tool ∷ store_app ∷ []) requested strict selected
      "selected" tool_chosen

abbrev whole : TextLimits
whole = record { truncate_command_field = λ n s. s; bound_command_text = λ n s. s }

abbrev good : CommandResult
good = record { ok = true; code = 0; stdout = ""; stderr = ""; command = "winget upgrade" }

abbrev stale_source : CommandResult
stale_source = record good { ok = false; code = 1; stderr = "Failed when opening source(s)" }

-- The action fails by its source, the sources are updated, and the action succeeds.
results_of : ℕ → CommandResult
results_of zero = stale_source
results_of (suc n) = good

abbrev trial : Trial
trial = record { results = results_of; cancelled = λ n. false; waited_out = λ n. true }

actions-run_package_action_command_example :
    actions (run_package_action_command whole "winget" trial).commands ≤ 4
actions-run_package_action_command_example = actions-run_package_action_command whole "winget" trial

repaired : (run_package_action_command whole "winget" trial).result.ok ≡ true
unfolding run_package_action_command results_of patch_board.Common.Text.to_lower
repaired = refl

run_package_action_command-Succeeded_example :
    Succeeded "winget" trial (run_package_action_command whole "winget" trial).commands
run_package_action_command-Succeeded_example =
    run_package_action_command-Succeeded whole "winget" trial (λ n. refl) repaired

-- When the context is cancelled after the sources were updated, the failed action counts as good.
abbrev interrupted : Trial
interrupted = record { results = results_of; cancelled = λ n. leb 2 n; waited_out = λ n. true }

interrupted_is_good : (run_package_action_command whole "winget" interrupted).result.ok ≡ true
unfolding run_package_action_command results_of patch_board.Common.Text.to_lower
interrupted_is_good = refl

interrupted_once : actions (run_package_action_command whole "winget" interrupted).commands ≡ 1
unfolding run_package_action_command results_of patch_board.Common.Text.to_lower
interrupted_once = refl

abbrev candidates : List String
candidates = "--force" ∷ " Acme.Tool " ∷ []

target_tried :
    Memᴰ "Acme.Tool"
      (run_package_update_candidates whole "target" (λ t. good) (λ t. false) candidates).tried
unfolding run_package_update_candidates
target_tried = Memᴰ.head refl

run_package_update_candidates-IsSafe_example :
    IsSafe "Acme.Tool" × ((c : String) × Memᴰ c candidates × ("Acme.Tool" ≡ trim_space c))
run_package_update_candidates-IsSafe_example =
    run_package_update_candidates-IsSafe whole "target" (λ t. good) (λ t. false) candidates
      "Acme.Tool" target_tried

-- An installer that asks for a restart.
abbrev restart : CommandResult
restart = record good { ok = false; code = 3010 }

normalize_package_action_result-IsNormal_example :
    IsNormal "choco" restart (normalize_package_action_result "choco" restart)
normalize_package_action_result-IsNormal_example =
    normalize_package_action_result-IsNormal "choco" restart
