-- ===== src/Commands/Result.antt =====
-- The result of a command, and the merging of several attempts: command.go, package_action_merge.go,
-- package_action_results.go and command_output_tail.go in internal/updater. A code is a natural number,
-- as Windows gives it. How a long text is shortened to a number of bytes (truncateCommandField and
-- boundCommandText) is the argument `limits`, so that what is shown holds for any.
use Prim.Native.String.{◌++◌ as text_append}
use patch_board.Common.{ℕ, String, Bool, false, not, ◌&&◌, if◌then◌else◌}
use patch_board.Common.{◌==◌ as num_eq}
use patch_board.Common.Text.{nonempty, trim_space, to_lower}
use patch_board.Common.Text.Search.{trim_right_newlines}

pub record CommandResult : Type 0 where
  pub ok : Bool
  pub code : ℕ
  pub stdout : String
  pub stderr : String
  pub command : String

abbrev pub command_timeout_code : ℕ
command_timeout_code = 124

abbrev pub command_cancelled_code : ℕ
command_cancelled_code = 130

abbrev pub command_skipped_code : ℕ
command_skipped_code = 204

-- `CommandResult{}`.
abbrev pub no_result : CommandResult
no_result = record { ok = false; code = 0; stdout = ""; stderr = ""; command = "" }

unfoldable pub validation_command_result : String → String → CommandResult
validation_command_result command err = record {
  ok = false;
  code = 2;
  stdout = "";
  stderr = err;
  command = command;
}

unfoldable pub normalized_command_output : CommandResult → String
normalized_command_output result =
    to_lower (text_append result.stdout (text_append "\n" result.stderr))

unfoldable pub append_command_stderr : CommandResult → String → CommandResult
append_command_stderr result message =
    let stderr = trim_right_newlines result.stderr in
    record result {
      stderr =
          if nonempty (trim_space stderr)
          then text_append stderr (text_append "\n" message)
          else message;
    }

unfoldable pub append_diagnostic_line : String → String → String
append_diagnostic_line existing line =
    let new = trim_space line in
    let old = trim_right_newlines existing in
    if not (nonempty new)
    then existing
    else if not (nonempty old)
    then new
    else text_append old (text_append "\n" new)

unfoldable pub merge_command_attempt_output : String → String → String
merge_command_attempt_output previous final =
    let old = trim_right_newlines previous in
    if nonempty old && nonempty final
    then text_append old (text_append "\n" final)
    else text_append old final

pub record TextLimits : Type 0 where
  pub truncate_command_field : ℕ → String → String
  pub bound_command_text : ℕ → String → String

module _ (limits : TextLimits) where
  -- A limit of 0 stands for the default one.
  unfoldable pub compact_command_result : CommandResult → ℕ → ℕ → CommandResult
  compact_command_result result stream command =
      let stream = (if num_eq stream 0 then 2097152 else stream) in
      let command = (if num_eq command 0 then 16384 else command) in
      record result {
        command = limits.truncate_command_field command result.command;
        stdout = limits.bound_command_text stream result.stdout;
        stderr = limits.bound_command_text stream result.stderr;
      }

  unfoldable pub merge_command_attempts_with_final_result :
      CommandResult → CommandResult → String → CommandResult
  unfolding compact_command_result merge_command_attempt_output
  merge_command_attempts_with_final_result previous final label =
      compact_command_result
        (record final {
          command =
              text_append previous.command
                (text_append "\n" (text_append label (text_append ": " final.command)));
          stdout = merge_command_attempt_output previous.stdout final.stdout;
          stderr = merge_command_attempt_output previous.stderr final.stderr;
        })
        2097152 16384
