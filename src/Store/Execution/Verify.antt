-- ===== src/Store/Execution/Verify.antt =====
-- internal/updater/store_update_execution.go: the loop that waits for the proof of an update. What
-- each round sees is a list of rounds, in their order; where the list ends, the loop still waits.
pub mod Laws
use Prim.Native.String.{◌++◌ as text_append}
use patch_board.Common.{
  ℕ, String, Bool, true, false, not, Option, none, some, List, [], ◌∷◌, any, if◌then◌else◌,
}
use patch_board.Common.Text.{str_eq, nonempty}
use patch_board.Commands.Result.{
  CommandResult, TextLimits, append_diagnostic_line, merge_command_attempts_with_final_result,
}
use patch_board.Store.Diagnostics.{sanitize_provider_diagnostic}
use patch_board.Store.Authorize.{
  StoreExactUpdateRequest, StoreExactPackageSnapshot, StoreExactCatalogResult,
  store_snapshot_verifies_update, store_catalog_verifies_update,
}
use patch_board.Store.Execution.Events.{
  StorePackageChangeEvent, validate_store_package_change_event, store_package_event_key,
}

-- `ctx.Err()` after the end of a context.
pub data ContextError : Type 0 where
  canceled deadline_exceeded : ContextError

abbrev pub context_text : ContextError → String
context_text canceled = "context canceled"
context_text deadline_exceeded = "context deadline exceeded"

-- What the `select` receives.
pub data Wake : Type 0 where
  done : ContextError → Wake
  closed : Wake
  event : StorePackageChangeEvent → Wake
  tick : Wake

-- One turn of the loop: the enumeration, what the catalog answers if it is asked, and the wake-up.
pub record Round : Type 0 where
  pub snapshot : StoreExactPackageSnapshot
  pub snapshot_result : CommandResult
  pub catalog : StoreExactCatalogResult
  pub catalog_result : CommandResult
  pub wake : Wake

pub record StoreExactVerificationResult : Type 0 where
  pub verified : Bool
  pub message : String
  pub result : CommandResult
  pub post : StoreExactPackageSnapshot
  pub post_result : CommandResult
  -- `verifyCtx.Err()` when the loop has returned.
  pub ended : Option ContextError

-- What the loop carries: the result so far, whether the channel is read, and the keys seen.
pub record Waiting : Type 0 where
  pub result : CommandResult
  pub listening : Bool
  pub seen_event_keys : List String

abbrev noted : Waiting → String → Waiting
noted waiting line = record waiting {
  result = record waiting.result { stdout = append_diagnostic_line waiting.result.stdout line };
}

abbrev pub seen : List String → String → Bool
seen keys key = any (str_eq key) keys

unfoldable heard : StoreExactUpdateRequest → ℕ → StorePackageChangeEvent → Waiting → Waiting
unfolding validate_store_package_change_event store_package_event_key append_diagnostic_line any
heard request started_at change waiting =
    let reason = validate_store_package_change_event request started_at change in
    let key = store_package_event_key change in
    if nonempty reason
    then noted waiting (text_append "Ignored Store package event: " (text_append reason "."))
    else if seen waiting.seen_event_keys key
    then noted waiting "Ignored duplicate Store package event."
    else noted (record waiting { seen_event_keys = key ∷ waiting.seen_event_keys })
        "PackageCatalog event received for exact Store package; refreshing inventory and catalog."

-- How a wake-up other than the end changes what is carried. A channel that was closed is not read
-- again: then nothing but a tick or the end wakes the loop.
unfoldable woken : StoreExactUpdateRequest → ℕ → Wake → Waiting → Waiting
unfolding heard append_diagnostic_line
woken request started_at (done e) waiting = waiting
woken request started_at tick waiting = waiting
woken request started_at closed waiting =
    if not waiting.listening
    then waiting
    else noted (record waiting { listening = false })
        "PackageCatalog event channel closed; continuing with polling."
woken request started_at (event e) waiting =
    if not waiting.listening then waiting else heard request started_at e waiting

-- What the wake-up makes of the round.
abbrev waited : CommandResult → Round → Wake → Option StoreExactVerificationResult
waited merged round (done e) = some (record {
  verified = false;
  message = context_text e;
  result = merged;
  post = round.snapshot;
  post_result = round.snapshot_result;
  ended = some e;
})
waited merged round closed = none
waited merged round (event e) = none
waited merged round tick = none

module _ (limits : TextLimits) where
  -- What a round returns, none when the loop goes on. The result is the one the catalog query has
  -- been merged into, except where the enumeration decides first.
  unfoldable pub round_outcome :
      StoreExactUpdateRequest
      → StoreExactPackageSnapshot
      → Waiting
      → CommandResult
      → Round
      → Option StoreExactVerificationResult
  unfolding store_snapshot_verifies_update store_catalog_verifies_update
  round_outcome request before waiting merged round =
      let (verified, message) = store_snapshot_verifies_update request before round.snapshot in
      let by_catalog = store_catalog_verifies_update request before round.catalog round.snapshot in
      if verified
      then some (record {
        verified = true;
        message = message;
        result = waiting.result;
        post = round.snapshot;
        post_result = round.snapshot_result;
        ended = none;
      })
      else if by_catalog
      then some (record {
        verified = true;
        message =
            "Store update verified because the exact offer disappeared after a fresh targeted catalog query.";
        result = merged;
        post = round.snapshot;
        post_result = round.snapshot_result;
        ended = none;
      })
      else waited merged round round.wake

  unfoldable pub verification_loop :
      StoreExactUpdateRequest
      → StoreExactPackageSnapshot
      → ℕ
      → Waiting
      → List Round
      → Option StoreExactVerificationResult
  unfolding round_outcome woken merge_command_attempts_with_final_result
  verification_loop request before started_at waiting [] = none
  verification_loop request before started_at waiting (round ∷ rounds) =
      let merged =
        merge_command_attempts_with_final_result limits waiting.result round.catalog_result
          "targeted Store catalog query" in
      let next = woken request started_at round.wake (record waiting { result = merged }) in
      let rest = verification_loop request before started_at next rounds in
      elim (round_outcome request before waiting merged round) [ some r ↦ some r | none ↦ rest ]

  abbrev verification_started : CommandResult
  verification_started = record {
    ok = true;
    code = 0;
    stdout = "";
    stderr = "";
    command = "store exact post-action verification";
  }

  abbrev first_result : Option String → CommandResult
  first_result none = verification_started
  first_result (some err) =
      merge_command_attempts_with_final_result limits verification_started
        (record {
          ok = false;
          code = 1;
          stdout = "";
          stderr = sanitize_provider_diagnostic err;
          command = "PackageCatalog event subscription";
        })
        "PackageCatalog events unavailable"

  -- `subscription_error` is the error of Subscribe.
  unfoldable pub verify_accepted_action_with_events :
      StoreExactUpdateRequest
      → StoreExactPackageSnapshot
      → ℕ
      → Option String
      → List Round
      → Option StoreExactVerificationResult
  unfolding verification_loop merge_command_attempts_with_final_result sanitize_provider_diagnostic
  verify_accepted_action_with_events request before started_at subscription_error rounds =
      verification_loop request before started_at
        (record {
          result = first_result subscription_error;
          listening = true;
          seen_event_keys = [];
        })
        rounds
