-- ===== src/Store/Execution/Executor/Codes.antt =====
-- How often the command is run, that an execution returns, and the code that it returns.
use mathlib.Core.List.{Memᴰ}
use patch_board.Common.{
  some_inj, ℕ, Bool, true, false, Option, none, some, List, [], ◌∷◌, any, ◌≡◌, refl, sym, ap, ◌∙◌,
  inl, inr, ◌⊎◌, ◌↔◌, ◌≢◌, arith, suc, Bool-cases,
}
use patch_board.Commands.Result.{CommandResult, TextLimits, validation_command_result}
use patch_board.Packages.Model.{Package}
use patch_board.Store.Authorize.{StoreExactUpdateRequest}
use patch_board.Store.Execution.Request.Laws.{IsSound}
use patch_board.Store.Execution.Verify.{
  ContextError, canceled, StoreExactVerificationResult, verify_accepted_action_with_events,
}
use patch_board.Store.Execution.Verify.Laws.{is_done, verify_accepted_action_with_events-returns}
use patch_board.Store.Execution.Executor.{
  World, Call, Execution, was_cancelled, already_updated, run_failure, updated_with, concluded,
  conclude, execute_with_callbacks,
}
use patch_board.Store.Execution.Messages.{append_store_execution_diagnostic, pre_action_text}
use patch_board.Store.Execution.Executor.Cases.{UpdateFound, execute_with_callbacks-cases}
use patch_board.Store.Execution.Executor.Verified.{IsReady, ready-IsReady, diagnostic-ok}

abbrev pub runs : List Call → ℕ
runs [] = 0
runs (Call.ran request ∷ calls) = suc (runs calls)
runs (Call.enumerated i ∷ calls) = runs calls
runs (Call.subscribed i ∷ calls) = runs calls
runs (Call.starting request ∷ calls) = runs calls
runs (Call.accepted request r ∷ calls) = runs calls
runs (Call.verifying request ∷ calls) = runs calls

abbrev pub is_verifying : Call → Bool
is_verifying (Call.verifying request) = true
is_verifying _ = false

abbrev pub RunsOnce : World → Package → Execution → Type 0
RunsOnce world pkg e =
    (runs e.calls ≡ 0)
    ⊎ ((runs e.calls ≡ 1)
        × ((request : StoreExactUpdateRequest) × Memᴰ (Call.ran request) e.calls
            × IsSound world.surroundings pkg request
            × IsReady world request
            × UpdateFound world request false))

-- The runner of the update command is called at most once, and only for a sound request, which the published evidence
-- authorises, after the installed package was found present, healthy, unchanged since the assessment
-- and not updated yet.
pub execute_with_callbacks-runs :
    (limits : TextLimits) (world : World) (pkg : Package)
    → RunsOnce world pkg (execute_with_callbacks limits world pkg)
execute_with_callbacks-runs limits world pkg =
    execute_with_callbacks-cases limits world pkg (RunsOnce world pkg) (record {
      when_refused = λ err. inl refl;
      when_updated = λ request sound newer. inl refl;
      when_stopped = λ request p n. inl refl;
      when_failed = λ request failure sound n p h. inr (
        refl,
        (
          request,
          Memᴰ.tail (Memᴰ.tail (Memᴰ.tail (Memᴰ.head refl))),
          sound,
          ready-IsReady world request p,
          n,
        ),
      );
      when_accepted = λ request sound n p h. inr (
        refl,
        (
          request,
          Memᴰ.tail (Memᴰ.tail (Memᴰ.tail (Memᴰ.head refl))),
          sound,
          ready-IsReady world request p,
          n,
        ),
      );
    })

concluded-some :
    (limits : TextLimits) (update : CommandResult) (o : Option StoreExactVerificationResult)
    → ((v : StoreExactVerificationResult) × (o ≡ some v))
    → (r : CommandResult) × (concluded limits update o ≡ some r)
concluded-some limits update none (v, h) = ground arith
concluded-some limits update (some v) h = (_, refl)

-- An execution returns whenever the verification's context ends in one of its rounds.
pub execute_with_callbacks-returns :
    (limits : TextLimits) (world : World) (pkg : Package)
    → any is_done world.rounds ≡ true
    → (r : CommandResult) × ((execute_with_callbacks limits world pkg).result ≡ some r)
execute_with_callbacks-returns limits world pkg h =
    execute_with_callbacks-cases limits world pkg (λ e. (r : CommandResult) × (e.result ≡ some r))
      (record {
        when_refused = λ err. (_, refl);
        when_updated = λ request sound newer. (_, refl);
        when_stopped = λ request p n. (_, refl);
        when_failed = λ request failure sound n p f. (failure, refl);
        when_accepted = λ request sound n p f. concluded-some limits _ _ (
            verify_accepted_action_with_events-returns limits request world.before world.started_at
              world.subscription_error world.rounds h);
      })

-- What the result of a verification says of the result.
abbrev Final : StoreExactVerificationResult → CommandResult → Type 0
Final v r =
    ((v.verified ≡ true) × (r.ok ≡ true) × (r.code ≡ 0))
    ⊎ ((v.verified ≡ false)
        × (r.ok ≡ false)
        × (((v.ended ≡ some canceled) × (r.code ≡ 130))
            ⊎ ((v.ended ≢ some canceled) × (r.code ≡ 202))))

-- What a run that was not accepted says of the result.
abbrev pub Stopped : World → StoreExactUpdateRequest → CommandResult → Type 0
Stopped world request r =
    ((world.cancelled ≡ true) × (r.ok ≡ false) × (r.code ≡ 130))
    ⊎ ((world.cancelled ≡ false)
        × (r.ok ≡ (world.run_store_update request).ok)
        × (r.code ≡ (world.run_store_update request).code)
        × ((r.ok ≡ false) ⊎ (r.code ≡ 130)))

-- What a result's flag and code are, by the calls that were made.
abbrev pub Coded : TextLimits → World → Execution → CommandResult → Type 0
Coded limits world e r =
    ((runs e.calls ≡ 0) × (((r.ok ≡ true) × (r.code ≡ 0)) ⊎ ((r.ok ≡ false) × (r.code ≡ 2))))
    ⊎ (((any is_verifying e.calls ≡ false)
          × ((request : StoreExactUpdateRequest) × Memᴰ (Call.ran request) e.calls
              × Stopped world request r))
        ⊎ ((request : StoreExactUpdateRequest) × ((v : StoreExactVerificationResult) × Memᴰ
                (Call.verifying request) e.calls
              × (verify_accepted_action_with_events limits request world.before world.started_at
                    world.subscription_error world.rounds
                  ≡ some v)
              × Final v r)))

was_cancelled_iff : (o : Option ContextError) → (was_cancelled o ≡ true) ↔ (o ≡ some canceled)
was_cancelled_iff none = (λ h. ground arith, λ h. ground arith)
was_cancelled_iff (some ContextError.canceled) = (λ h. refl, λ h. refl)
was_cancelled_iff (some ContextError.deadline_exceeded) = (λ h. ground arith, λ h. cc)

not_both : (b : Bool) → b ≡ true → b ≡ false → ⊥
not_both b t f = ground arith

conclude-Final :
    (limits : TextLimits) (update : CommandResult) (v : StoreExactVerificationResult)
    → Final v (conclude limits update v)
unfolding conclude
conclude-Final limits update v = elim (Bool-cases v.verified) [
  | inl e ↦ rw (e) (inl (refl, refl, refl))
  | inr e ↦ elim (Bool-cases (was_cancelled v.ended)) [
    | inl c ↦ rw (e, c) (inr (refl, refl, inl ((was_cancelled_iff v.ended).0 c, refl)))
    | inr c ↦
        rw (e, c)
          (inr (
            refl,
            refl,
            inr (λ h. not_both (was_cancelled v.ended) ((was_cancelled_iff v.ended).1 h) c, refl),
          ))
  ]
]

concluded-Final :
    (limits : TextLimits) (update r : CommandResult) (o : Option StoreExactVerificationResult)
    → concluded limits update o ≡ some r
    → (v : StoreExactVerificationResult) × (o ≡ some v) × Final v r
concluded-Final limits update r none h = ground arith
concluded-Final limits update r (some v) h =
    (v, refl, rw (sym (some_inj _ r h)) (conclude-Final limits update v))

run_failure-Stopped :
    (world : World) (request : StoreExactUpdateRequest) (update failure : CommandResult)
    → update.ok ≡ (world.run_store_update request).ok
    → update.code ≡ (world.run_store_update request).code
    → run_failure world.cancelled update ≡ some failure
    → Stopped world request failure
unfolding run_failure
run_failure-Stopped world request update failure o c h = elim (Bool-cases world.cancelled) [
  | inl e ↦ inl (ground arith)
  | inr e ↦ inr (ground arith)
]

kept :
    (world : World) (outcome r : CommandResult) (code : ℕ) (ok : Bool)
    → outcome.code ≡ code
    → outcome.ok ≡ ok
    → some (append_store_execution_diagnostic outcome "pre-action" world.before world.before_result)
      ≡ some r
    → (r.ok ≡ ok) × (r.code ≡ code)
kept world outcome r code ok c o h =
    let q = some_inj _ r h in
    let d = diagnostic-ok outcome "pre-action" world.before world.before_result in
    (sym (ap (λ x. x.ok) q) ∙ d.0 ∙ o, sym (ap (λ x. x.code) q) ∙ d.1 ∙ c)

-- A result without a run of the command has the code 0 when it is good, and else 2. After a run that
-- is not accepted, it is bad with the code 130 when the context was cancelled, and else has the flag
-- and the code of the runner's answer, which is bad or has the code 130. Once the verification has
-- begun, it is good with the code 0 exactly when the verification succeeded, bad with 130 when its
-- context was cancelled, and bad with 202 in all other cases.
pub execute_with_callbacks-code :
    (limits : TextLimits) (world : World) (pkg : Package) (r : CommandResult)
    → (execute_with_callbacks limits world pkg).result ≡ some r
    → Coded limits world (execute_with_callbacks limits world pkg) r
unfolding any validation_command_result
execute_with_callbacks-code limits world pkg =
    execute_with_callbacks-cases limits world pkg
      (λ e. (r : CommandResult) → e.result ≡ some r → Coded limits world e r)
      (record {
        when_refused = λ err r h. inl (refl, rw (sym (some_inj _ r h)) (inr (refl, refl)));
        when_updated = λ request sound newer r h.
            inl (refl, inl (kept world already_updated r 0 true refl refl h));
        when_stopped = λ request p n r h. inl (
          refl,
          inr (
              kept world (validation_command_result "store exact update" (pre_action_text p)) r 2
                false refl refl h),
        );
        when_failed = λ request failure sound n p f r h.
            let (o, c) =
              diagnostic-ok (world.run_store_update request) "pre-action" world.before
                world.before_result in
            inr (
              inl (
                refl,
                (
                  request,
                  Memᴰ.tail (Memᴰ.tail (Memᴰ.tail (Memᴰ.head refl))),
                  rw (sym (some_inj failure r h)) (
                      run_failure-Stopped world request (updated_with limits world request) failure
                        o c f),
                ),
              ));
        when_accepted = λ request sound n p f r h.
            let (v, e, final) = concluded-Final limits _ r _ h in
            inr (
              inr (
                request,
                (
                  v,
                  Memᴰ.tail (Memᴰ.tail (Memᴰ.tail (Memᴰ.tail (Memᴰ.tail (Memᴰ.head refl))))),
                  e,
                  final,
                ),
              ));
      })
