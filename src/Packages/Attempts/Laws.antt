-- ===== src/Packages/Attempts/Laws.antt =====
-- How often a package action is tried, and that no success is reported that no attempt had.
use patch_board.Common.{
  ℕ, suc, zero, ◌≤◌, ◌+◌, String, Bool, true, false, not, ◌&&◌, ◌||◌, List, [], ◌∷◌, length,
  if-cases, ◌≡◌, refl, sym, ◌∙◌, inl, ◌⊎◌, arith,
}
use patch_board.Common.Text.{str_eq}
use patch_board.Commands.Result.{
  CommandResult, TextLimits, merge_command_attempts_with_final_result,
}
use patch_board.Packages.Retry.{is_winget_source_failure, is_transient_package_manager_failure}
use patch_board.Packages.Attempts.{
  ActionCommand, action, source_update, source_reset, Trial, Attempts, run_package_action_attempt,
  retry_label, retry_package_action_on_transient_failure, retried, source_repaired,
  run_package_action_command,
}

-- How often the package action itself was run.
abbrev pub actions : List ActionCommand → ℕ
actions [] = 0
actions (action ∷ commands) = suc (actions commands)
actions (source_update ∷ commands) = actions commands
actions (source_reset ∷ commands) = actions commands

-- One of the commands was the package action, and its own result was good.
abbrev pub Succeeded : String → Trial → List ActionCommand → Type 0
Succeeded manager trial [] = ⊥
Succeeded manager trial (action ∷ commands) =
    ((run_package_action_attempt manager trial action commands).ok ≡ true)
    ⊎ Succeeded manager trial commands
Succeeded manager trial (source_update ∷ commands) = Succeeded manager trial commands
Succeeded manager trial (source_reset ∷ commands) = Succeeded manager trial commands

abbrev Undisturbed : Trial → Type 0
Undisturbed trial = (n : ℕ) → trial.cancelled n ≡ false

-- At most so many runs of the action; and without a cancellation no success that no run had.
abbrev Honest : String → Trial → ℕ → Attempts → Type 0
Honest manager trial bound a =
    (actions a.commands ≤ bound)
    × (Undisturbed trial → (a.result.ok ≡ true) → Succeeded manager trial a.commands)

absurd_bool {ℓ} : {A : Type ℓ} (b : Bool) → b ≡ true → b ≡ false → A
absurd_bool b h g = ground arith

only_second : (a b : Bool) → a ≡ false → (a || not b) ≡ true → b ≡ false
only_second a b h g = ground arith

module _ (limits : TextLimits) (manager : String) (trial : Trial) where
  merged-ok :
      (p f : CommandResult) (label : String)
      → (merge_command_attempts_with_final_result limits p f label).ok ≡ f.ok
  unfolding merge_command_attempts_with_final_result
  merged-ok p f label = refl

  -- Nothing more is run.
  stopped :
      (bound : ℕ) (current : CommandResult) (commands : List ActionCommand)
      → actions commands ≤ bound
      → (Undisturbed trial → current.ok ≡ true → Succeeded manager trial commands)
      → Honest manager trial bound (record { result = current; commands = commands })
  stopped bound current commands b h = (b, h)

  widened : (a b : ℕ) (e : Attempts) → a ≤ b → Honest manager trial a e → Honest manager trial b e
  widened a b e h (c, s) = (omega arith, s)

  attempted :
      (p f : CommandResult) (label : String) (commands : List ActionCommand)
      → run_package_action_attempt manager trial action commands ≡ f
      → (merge_command_attempts_with_final_result limits p f label).ok ≡ true
      → Succeeded manager trial (action ∷ commands)
  attempted p f label commands e h = inl (rw (e) (sym (merged-ok p f label) ∙ h))

  retry-Honest :
      (n : ℕ) (commands : List ActionCommand) (current : CommandResult)
      → (Undisturbed trial → current.ok ≡ true → Succeeded manager trial commands)
      → Honest manager trial
          (n + actions commands)
          (retry_package_action_on_transient_failure limits manager trial n current commands)
  unfolding retry_package_action_on_transient_failure
  retry-Honest zero commands current h = stopped _ current commands (omega arith) h
  retry-Honest (suc n) commands current h =
      let retry = run_package_action_attempt manager trial action commands in
      let merged =
        merge_command_attempts_with_final_result limits current retry (retry_label manager n) in
      let rest =
        retry_package_action_on_transient_failure limits manager trial n merged
          (action ∷ commands) in
      let here = stopped (suc n + actions commands) current commands (omega arith) h in
      if-cases (Honest manager trial (suc n + actions commands))
        (current.ok
          || trial.cancelled (length commands)
          || not (is_transient_package_manager_failure manager current))
        (record { result = current; commands = commands }) _ (λ c. here)
        (λ c.
          if-cases (Honest manager trial (suc n + actions commands))
            (not (trial.waited_out (length commands)))
            (record { result = current; commands = commands }) rest (λ w. here)
            (λ w.
              widened (n + actions (action ∷ commands)) (suc n + actions commands) rest
                (omega arith)
                (retry-Honest n (action ∷ commands) merged
                  (λ u. attempted current retry (retry_label manager n) commands refl))))

  retried-Honest :
      (current : CommandResult) (label : String) (commands : List ActionCommand)
      → Honest manager trial
          (3 + actions commands)
          (retried limits manager trial current label commands)
  unfolding retried
  retried-Honest current label commands =
      let retry = run_package_action_attempt manager trial action commands in
      let merged = merge_command_attempts_with_final_result limits current retry label in
      widened (2 + actions (action ∷ commands)) (3 + actions commands)
        (retry_package_action_on_transient_failure limits manager trial 2 merged
          (action ∷ commands))
        (omega arith)
        (retry-Honest 2 (action ∷ commands) merged
          (λ u. attempted current retry label commands refl))

  source-Honest :
      (first : CommandResult)
      → Honest manager trial 4 (source_repaired limits manager trial first (action ∷ []))
  unfolding source_repaired
  source-Honest first =
      let update = run_package_action_attempt manager trial source_update (action ∷ []) in
      let updated =
        merge_command_attempts_with_final_result limits first update "winget source update" in
      let after_update = source_update ∷ action ∷ [] in
      let reset = run_package_action_attempt manager trial source_reset after_update in
      let was_reset =
        merge_command_attempts_with_final_result limits updated reset "winget source reset" in
      let after_reset = source_reset ∷ after_update in
      let P = Honest manager trial 4 in
      if-cases P (trial.cancelled 2) (record { result = updated; commands = after_update }) _
        (λ c.
          stopped 4 updated after_update (omega arith)
            (λ undisturbed g. absurd_bool (trial.cancelled 2) c (undisturbed 2)))
        (λ c.
          if-cases P update.ok
            (retried limits manager trial updated "winget retry after source update" after_update) _
            (λ u. retried-Honest updated "winget retry after source update" after_update)
            (λ u.
              if-cases P (not (is_winget_source_failure update))
                (record { result = updated; commands = after_update }) _
                (λ f. stopped 4 updated after_update (omega arith) (λ undisturbed g.
                  absurd_bool updated.ok g (merged-ok first update "winget source update" ∙ u)))
                (λ f.
                  if-cases P (trial.cancelled 3 || not reset.ok)
                    (record { result = was_reset; commands = after_reset })
                    (retried limits manager trial was_reset "winget retry after source reset"
                      after_reset)
                    (λ r. stopped 4 was_reset after_reset (omega arith) (λ undisturbed g.
                      absurd_bool was_reset.ok g (
                        merged-ok updated reset "winget source reset"
                        ∙ only_second (trial.cancelled 3) reset.ok (undisturbed 3) r)))
                    (λ r. retried-Honest was_reset "winget retry after source reset" after_reset))))

  command-Honest : Honest manager trial 4 (run_package_action_command limits manager trial)
  unfolding run_package_action_command
  command-Honest =
      let first = run_package_action_attempt manager trial action [] in
      let P = Honest manager trial 4 in
      if-cases P (first.ok || trial.cancelled 1) (record { result = first; commands = action ∷ [] })
        _ (λ c. stopped 4 first (action ∷ []) (omega arith) (λ undisturbed g. inl g))
        (λ c.
          if-cases P (str_eq manager "winget" && is_winget_source_failure first)
            (source_repaired limits manager trial first (action ∷ [])) _ (λ s. source-Honest first)
            (λ s.
              widened 3 4
                (retry_package_action_on_transient_failure limits manager trial 2 first
                  (action ∷ []))
                (omega arith) (retry-Honest 2 (action ∷ []) first (λ u g. inl g))))

  -- The package action is run at most four times, whatever the commands answer and whenever the context
  -- is cancelled.
  pub actions-run_package_action_command :
      actions (run_package_action_command limits manager trial).commands ≤ 4
  actions-run_package_action_command = command-Honest.0

  -- While the context is not cancelled, a good result means that one of the runs of the package
  -- action itself was good: it is never only the result of an update or a reset of the sources.
  pub run_package_action_command-Succeeded :
      ((n : ℕ) → trial.cancelled n ≡ false)
      → (run_package_action_command limits manager trial).result.ok ≡ true
      → Succeeded manager trial (run_package_action_command limits manager trial).commands
  run_package_action_command-Succeeded undisturbed h = command-Honest.1 undisturbed h
