-- ===== src/Packages/Targets.antt =====
-- The targets of a package action: package_action_targets.go and package_actions.go in
-- internal/updater.
pub mod Laws
use Prim.Native.Char.{code}
use Prim.Native.String
use Prim.Native.String.{◌++◌ as text_append, len}
use patch_board.Common.{
  ℕ, String, Bool, true, false, not, ◌&&◌, ◌||◌, List, [], ◌∷◌, ltb, leb, if◌then◌else◌,
}
use patch_board.Common.{◌==◌ as num_eq}
use patch_board.Common.Text.{nonempty, trim_space, to_lower}
use patch_board.Common.Text.Search.{has_prefix}
use patch_board.Common.Dict.{contains}
use patch_board.Commands.Result.{
  CommandResult, TextLimits, validation_command_result, merge_command_attempts_with_final_result,
}
use patch_board.Packages.Retry.{should_try_alternate_package_target}

-- NUL, CR, LF and & | < > ^ " %.
unfoldable pub is_blocked : ℕ → Bool
is_blocked c =
    num_eq c 0
    || num_eq c 13
    || num_eq c 10
    || num_eq c 38
    || num_eq c 124
    || num_eq c 60
    || num_eq c 62
    || num_eq c 94
    || num_eq c 34
    || num_eq c 37

unfoldable pub contains_blocked_package_action_char : String → Bool
unfolding is_blocked
contains_blocked_package_action_char String.[] = false
contains_blocked_package_action_char (String.◌∷◌ c s) =
    is_blocked (code c) || contains_blocked_package_action_char s

unfoldable pub is_option_like_package_target : String → Bool
unfolding has_prefix
is_option_like_package_target target = has_prefix "-" (trim_space target)

unfoldable pub is_ascii_alpha_numeric : ℕ → Bool
is_ascii_alpha_numeric c =
    (leb 97 c && leb c 122) || (leb 65 c && leb c 90) || (leb 48 c && leb c 57)

abbrev all_safe : String → Bool
all_safe String.[] = true
all_safe (String.◌∷◌ c s) =
    (is_ascii_alpha_numeric (code c)
      || num_eq (code c) 95
      || num_eq (code c) 46
      || num_eq (code c) 43
      || num_eq (code c) 45
      || num_eq (code c) 58)
    && all_safe s

unfoldable pub is_safe_package_id : String → Bool
unfolding is_ascii_alpha_numeric
is_safe_package_id package_id = nonempty package_id && all_safe package_id

abbrev pub is_unfit : String → Bool
is_unfit target =
    not (nonempty target)
    || ltb 240 (len target)
    || contains_blocked_package_action_char target
    || is_option_like_package_target target

-- The loop over the candidates; `seen_targets` are the targets so far, in small letters.
unfoldable pub unique_targets : (String → Bool) → List String → List String → List String
unfolding to_lower trim_space contains
unique_targets unfit [] seen_targets = []
unique_targets unfit (candidate ∷ candidates) seen_targets =
    let target = trim_space candidate in
    let skip = unfit target || contains (to_lower target) seen_targets in
    let next = (if skip then seen_targets else to_lower target ∷ seen_targets) in
    let rest = unique_targets unfit candidates next in if skip then rest else target ∷ rest

unfoldable pub unique_update_targets : List String → List String
unfolding unique_targets contains_blocked_package_action_char is_option_like_package_target
unique_update_targets candidates = unique_targets is_unfit candidates []

abbrev is_unfit_id : String → Bool
is_unfit_id target =
    not (nonempty target) || is_option_like_package_target target || not (is_safe_package_id target)

unfoldable pub unique_package_id_targets : List String → List String
unfolding unique_targets is_option_like_package_target is_safe_package_id
unique_package_id_targets candidates = unique_targets is_unfit_id candidates []

-- The targets that the update was run for, in their order, and the result.
pub record CandidateRun : Type 0 where
  pub tried : List String
  pub result : CommandResult

-- `fmt.Sprintf("%s %q", attemptLabel, target)`, where no character of the target wants an escape.
abbrev attempt_text : String → String → String
attempt_text label target = text_append label (text_append " \"" (text_append target "\""))

abbrev also_tried : String → CandidateRun → CandidateRun
also_tried target run = record run { tried = target ∷ run.tried }

module _ (limits : TextLimits) (label : String) (run_target_update : String → CommandResult)
    (cancelled : String → Bool) where
  -- The targets after the first; `merged` is the result so far. `cancelled` is `ctx.Err() != nil`
  -- after a target.
  unfoldable pub run_alternates : CommandResult → List String → CandidateRun
  unfolding merge_command_attempts_with_final_result should_try_alternate_package_target
  run_alternates merged [] = record { tried = []; result = merged }
  run_alternates merged (target ∷ targets) =
      let attempt = run_target_update target in
      let next =
        merge_command_attempts_with_final_result limits merged attempt
          (attempt_text label target) in
      let rest = run_alternates next targets in
      if attempt.ok || cancelled target || not (should_try_alternate_package_target attempt)
      then record { tried = target ∷ []; result = next }
      else also_tried target rest

  abbrev run_targets : List String → CandidateRun
  run_targets [] = record {
    tried = [];
    result = validation_command_result "update" "package id contains unsupported characters";
  }
  run_targets (target ∷ targets) =
      let attempt = run_target_update target in
      let rest = run_alternates attempt targets in
      if attempt.ok || cancelled target || not (should_try_alternate_package_target attempt)
      then record { tried = target ∷ []; result = attempt }
      else also_tried target rest

  unfoldable pub run_package_update_candidates : List String → CandidateRun
  unfolding unique_update_targets run_alternates validation_command_result
      should_try_alternate_package_target
  run_package_update_candidates candidates = run_targets (unique_update_targets candidates)
