-- ===== src/Store/Execution/Executor/Verified.antt =====
-- When an execution succeeds, and when it runs the command at all.
use mathlib.Core.List.{Memᴰ}
use patch_board.Common.{
  String, Bool, true, false, Option, none, some, some_inj, ◌≡◌, refl, sym, ap, ◌∙◌, inl, inr, ◌⊎◌,
  arith, Bool-cases,
}
use patch_board.Common.Text.{nonempty, trim_space, equal_fold}
use patch_board.Commands.Result.{CommandResult, TextLimits, validation_command_result}
use patch_board.Packages.Model.{Package}
use patch_board.Store.Model.{equal}
use patch_board.Store.Freshness.{store_assessment_version_known}
use patch_board.Store.Authorize.{
  StoreExactUpdateRequest, StoreExactPackageSnapshot, PreAction, validate_store_pre_action_snapshot,
  store_already_updated_before_action_result,
}
use patch_board.Store.Authorize.Verified.{IsAbove, Reaches, is_above-IsAbove}
use patch_board.Store.Execution.Request.Laws.{IsSound}
use patch_board.Store.Execution.Verify.{Round, StoreExactVerificationResult}
use patch_board.Store.Execution.Verify.Laws.{
  Proves, Rests, verify_accepted_action_with_events-Rests,
}
use patch_board.Store.Execution.Executor.{
  World, Execution, run_failure, updated_with, concluded, conclude, execute_with_callbacks,
}
use patch_board.Store.Execution.Messages.{
  pre_action_text, with_inventory, append_store_execution_diagnostic,
}
use patch_board.Store.Execution.Executor.Cases.{
  UpdateFound, PreChecked, execute_with_callbacks-cases,
}

-- The installed package was found above the assessed version, and not below a known offered one.
pub record IsNewer (world : World) (request : StoreExactUpdateRequest) : Type 0 where
  pub enumerated : world.before_result.ok ≡ true
  pub same_package : equal world.before.identity request.identity ≡ true
  pub present : world.before.exists ≡ true
  pub intact : world.before.healthy ≡ true
  pub increased : IsAbove world.before.version request.installed_version
  pub reached : Reaches world.before.version request.offered_version

pub record IsReady (world : World) (request : StoreExactUpdateRequest) : Type 0 where
  pub enumerated : world.before_result.ok ≡ true
  pub same_package : equal world.before.identity request.identity ≡ true
  pub present : world.before.exists ≡ true
  pub intact : world.before.healthy ≡ true
  pub known : store_assessment_version_known world.before.version ≡ true
  pub unchanged :
      equal_fold (trim_space world.before.version) (trim_space request.installed_version) ≡ true

store_already_updated-IsNewer :
    (world : World) (request : StoreExactUpdateRequest)
    → UpdateFound world request true
    → IsNewer world request
unfolding store_already_updated_before_action_result
store_already_updated-IsNewer world request h = record {
  enumerated = ground arith;
  same_package = ground arith;
  present = ground arith;
  intact = ground arith;
  increased = is_above-IsAbove world.before.version request.installed_version (ground arith);
  reached = λ known. ground arith;
}

pub ready-IsReady :
    (world : World) (request : StoreExactUpdateRequest)
    → PreChecked world request PreAction.ready
    → IsReady world request
unfolding validate_store_pre_action_snapshot
ready-IsReady world request h = ground arith

-- What is appended to the texts leaves the result and the code alone.
pub diagnostic-ok :
    (r : CommandResult) (label : String) (s : StoreExactPackageSnapshot) (i : CommandResult)
    → ((append_store_execution_diagnostic r label s i).ok ≡ r.ok)
      × ((append_store_execution_diagnostic r label s i).code ≡ r.code)
unfolding append_store_execution_diagnostic with_inventory
diagnostic-ok r label s i = elim (Bool-cases (nonempty i.command)) [
  | inl e ↦ rw (e) (refl, refl)
  | inr e ↦ rw (e) (refl, refl)
]

-- Why the run was accepted.
pub accepted_run :
    (cancelled : Bool) (update : CommandResult)
    → run_failure cancelled update ≡ none
    → (cancelled ≡ false) × (update.ok ≡ true)
unfolding run_failure
accepted_run cancelled update h = ground arith

concluded-verified :
    (limits : TextLimits) (update r : CommandResult) (o : Option StoreExactVerificationResult)
    → concluded limits update o ≡ some r
    → r.ok ≡ true
    → (v : StoreExactVerificationResult) × (o ≡ some v) × (v.verified ≡ true)
unfolding conclude
concluded-verified limits update r none h k = ground arith
concluded-verified limits update r (some v) h k = (v, refl, ground arith)

-- The runner itself has answered with success and the code of a cancellation.
abbrev pub IsExcused : World → StoreExactUpdateRequest → Type 0
IsExcused world request =
    ((world.run_store_update request).ok ≡ true)
    × ((world.run_store_update request).code ≡ 130)
    × (world.cancelled ≡ false)

run_failure-good :
    (cancelled : Bool) (update failure : CommandResult)
    → run_failure cancelled update ≡ some failure
    → failure.ok ≡ true
    → (update.ok ≡ true) × (update.code ≡ 130) × (cancelled ≡ false)
unfolding run_failure
run_failure-good true update failure h t = ground arith
run_failure-good false update failure h t = elim (Bool-cases update.ok) [
  | inl e ↦ ground arith
  | inr e ↦ ground arith
]

impossible {ℓ} :
    {A : Type ℓ} (x r : CommandResult) → some x ≡ some r → x.ok ≡ false → r.ok ≡ true → A
impossible x r h f t = ground arith

-- The command was run and accepted, and a round of the verification proves the update.
pub record IsProved (world : World) (request : StoreExactUpdateRequest) : Type 0 where
  pub ready : IsReady world request
  pub ran_well : (world.run_store_update request).ok ≡ true
  pub not_cancelled : world.cancelled ≡ false
  pub proof : (round : Round) × Memᴰ round world.rounds × Proves request world.before round

proved_by :
    (request : StoreExactUpdateRequest) (before : StoreExactPackageSnapshot)
    (v : StoreExactVerificationResult) (round : Round)
    → Rests request before v round
    → v.verified ≡ true
    → Proves request before round
proved_by request before v round (p, inl (t, q)) h = q
proved_by request before v round (p, inr (f, q)) h = ground arith

abbrev pub Succeeds : World → Package → Execution → Type 0
Succeeds world pkg e =
    (r : CommandResult)
    → e.result ≡ some r
    → r.ok ≡ true
    → (request : StoreExactUpdateRequest) × IsSound world.surroundings pkg request
      × (IsNewer world request
          ⊎ (IsProved world request ⊎ (IsReady world request × IsExcused world request)))

module _ (limits : TextLimits) (world : World) (pkg : Package) where
  failure-IsExcused :
      (request : StoreExactUpdateRequest) (failure r : CommandResult)
      → run_failure world.cancelled (updated_with limits world request) ≡ some failure
      → some failure ≡ some r
      → r.ok ≡ true
      → IsExcused world request
  failure-IsExcused request failure r h e t =
      let (o, c) =
        diagnostic-ok (world.run_store_update request) "pre-action" world.before
          world.before_result in
      let (good, code, left) =
        run_failure-good world.cancelled (updated_with limits world request) failure h
          (ap (λ x. x.ok) (some_inj failure r e) ∙ t) in
      (sym o ∙ good, sym c ∙ code, left)

  all-Succeeds : Succeeds world pkg (execute_with_callbacks limits world pkg)
  unfolding validation_command_result
  all-Succeeds = execute_with_callbacks-cases limits world pkg (Succeeds world pkg) (record {
    when_refused = λ err r e k. impossible _ r e refl k;
    when_updated = λ request sound newer r e k.
        (request, sound, inl (store_already_updated-IsNewer world request newer));
    when_stopped = λ request p n r e k.
        impossible _ r e
          (diagnostic-ok (validation_command_result "store exact update" (pre_action_text p))
            "pre-action" world.before world.before_result).0
          k;
    when_failed = λ request failure sound n p h r e k. (
      request,
      sound,
      inr (inr (ready-IsReady world request p, failure-IsExcused request failure r h e k)),
    );
    when_accepted = λ request sound n p h r e k.
        let (c, o) = accepted_run world.cancelled (updated_with limits world request) h in
        let (v, w, y) = concluded-verified limits _ r _ e k in
        let (round, m, b) =
          verify_accepted_action_with_events-Rests limits request world.before world.started_at
            world.subscription_error world.rounds v w in
        let q =
          diagnostic-ok (world.run_store_update request) "pre-action" world.before
            world.before_result in
        (
          request,
          sound,
          inr (
              inl (record {
                ready = ready-IsReady world request p;
                ran_well = sym q.0 ∙ o;
                not_cancelled = c;
                proof = (round, m, proved_by request world.before v round b y);
              })),
        );
  })

  -- An execution that ends well had a sound request, which the published evidence authorises. Either
  -- the package was already newer before the action; or it was checked right before, the command ran
  -- well, was not cancelled, and a round's enumeration or catalog query proves the update; or it was
  -- checked right before, and the runner itself answered success with the code 130 of a cancellation,
  -- without the context being cancelled.
  pub execute_with_callbacks-IsProved :
      (r : CommandResult)
      → (execute_with_callbacks limits world pkg).result ≡ some r
      → r.ok ≡ true
      → (request : StoreExactUpdateRequest) × IsSound world.surroundings pkg request
        × (IsNewer world request
            ⊎ (IsProved world request ⊎ (IsReady world request × IsExcused world request)))
  execute_with_callbacks-IsProved = all-Succeeds
