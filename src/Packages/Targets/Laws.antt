-- ===== src/Packages/Targets/Laws.antt =====
-- No target reaches a command line that could be read as an option or break it.
use mathlib.Core.List.{Memᴰ}
use patch_board.Common.{
  ◌≤◌, String, Bool, true, false, not, ◌||◌, List, [], ◌∷◌, if◌then◌else◌, if-cases, ◌≡◌, refl,
  arith,
}
use Prim.Native.String.{len}
use patch_board.Common.Text.{nonempty, trim_space, to_lower}
use patch_board.Common.Dict.{contains}
use patch_board.Commands.Result.{
  CommandResult, TextLimits, merge_command_attempts_with_final_result, validation_command_result,
}
use patch_board.Packages.Retry.{should_try_alternate_package_target}
use patch_board.Packages.Targets.{
  contains_blocked_package_action_char, is_option_like_package_target, is_unfit, unique_targets,
  unique_update_targets, CandidateRun, also_tried, run_alternates, run_targets, attempt_text,
  run_package_update_candidates,
}

-- A target that may stand on a command line.
pub record IsSafe (target : String) : Type 0 where
  pub given : nonempty target ≡ true
  pub short : len target ≤ 240
  pub unblocked : contains_blocked_package_action_char target ≡ false
  pub no_option : is_option_like_package_target target ≡ false

fit-IsSafe : (target : String) → is_unfit target ≡ false → IsSafe target
fit-IsSafe target h = ground arith

split_or : (a b : Bool) → (a || b) ≡ false → a ≡ false
split_or a b h = ground arith

module _ (unfit : String → Bool) where
  -- Every target is fit, and is one of the candidates without the spaces around it.
  abbrev Fits : List String → String → Type 0
  Fits candidates t = (unfit t ≡ false) × ((c : String) × Memᴰ c candidates × (t ≡ trim_space c))

  later-Fits :
      (candidate : String) (candidates : List String) (t : String)
      → Fits candidates t
      → Fits (candidate ∷ candidates) t
  later-Fits candidate candidates t (u, (c, m, e)) = (u, (c, Memᴰ.tail m, e))

  first-Fits :
      (candidate : String) (candidates rest : List String) (t : String)
      → unfit (trim_space candidate) ≡ false
      → (Memᴰ t rest → Fits candidates t)
      → Memᴰ t (trim_space candidate ∷ rest)
      → Fits (candidate ∷ candidates) t
  first-Fits candidate candidates rest t u later (Memᴰ.head e) =
      (rw (e) u, (candidate, Memᴰ.head refl, e))
  first-Fits candidate candidates rest t u later (Memᴰ.tail m) =
      later-Fits candidate candidates t (later m)

  targets-Fits :
      (candidates seen : List String) (t : String)
      → Memᴰ t (unique_targets unfit candidates seen)
      → Fits candidates t
  unfolding unique_targets
  targets-Fits [] seen t = λ m. elim m [ ]
  targets-Fits (candidate ∷ candidates) seen t =
      let target = trim_space candidate in
      let skip = unfit target || contains (to_lower target) seen in
      let next = (if skip then seen else to_lower target ∷ seen) in
      let rest = unique_targets unfit candidates next in
      if-cases (λ ts. Memᴰ t ts → Fits (candidate ∷ candidates) t) skip rest (target ∷ rest)
        (λ s m. later-Fits candidate candidates t (targets-Fits candidates next t m))
        (λ s m.
          first-Fits candidate candidates rest t (split_or (unfit target) _ s)
            (targets-Fits candidates next t) m)

of_unique :
    (candidates : List String) (t : String)
    → Memᴰ t (unique_update_targets candidates)
    → Fits is_unfit candidates t
unfolding unique_update_targets
of_unique candidates t m = targets-Fits is_unfit candidates [] t m

module _ (limits : TextLimits) (label : String) (run : String → CommandResult)
    (cancelled : String → Bool) where
  -- What was tried is among the targets, and a good result is that of a target that was tried.
  abbrev Tries : List String → CandidateRun → Type 0
  Tries targets r =
      ((t : String) → Memᴰ t r.tried → Memᴰ t targets)
      × (r.result.ok ≡ true → (t : String) × Memᴰ t r.tried × ((run t).ok ≡ true))

  also-Tries :
      (target : String) (targets : List String) (r : CandidateRun)
      → Tries targets r
      → Tries (target ∷ targets) (also_tried target r)
  also-Tries target targets r (m, k) = (
    λ t n. elim n [ Memᴰ.head e ↦ Memᴰ.head e | Memᴰ.tail n ↦ Memᴰ.tail (m t n) ],
    λ h. let (t, n, e) = k h in (t, Memᴰ.tail n, e),
  )

  only-Tries :
      (target : String) (targets : List String) (result : CommandResult)
      → (result.ok ≡ true → (run target).ok ≡ true)
      → Tries (target ∷ targets) (record { tried = target ∷ []; result = result })
  only-Tries target targets result h = (
    λ t n. elim n [ Memᴰ.head e ↦ Memᴰ.head e | Memᴰ.tail n ↦ elim n [ ] ],
    λ k. (target, Memᴰ.head refl, h k),
  )

  alternates-Tries :
      (targets : List String) (merged : CommandResult)
      → merged.ok ≡ false
      → Tries targets (run_alternates limits label run cancelled merged targets)
  unfolding run_alternates merge_command_attempts_with_final_result
  alternates-Tries [] merged h = (λ t m. m, λ k. ground arith)
  alternates-Tries (target ∷ targets) merged h =
      let attempt = run target in
      let next =
        merge_command_attempts_with_final_result limits merged attempt
          (attempt_text label target) in
      if-cases (Tries (target ∷ targets))
        (attempt.ok || cancelled target || not (should_try_alternate_package_target attempt))
        (record { tried = target ∷ []; result = next })
        (also_tried target (run_alternates limits label run cancelled next targets))
        (λ s. only-Tries target targets next (λ k. k))
        (λ s. also-Tries target targets (run_alternates limits label run cancelled next targets) (
          alternates-Tries targets next (
            split_or attempt.ok (cancelled target)
              (split_or (attempt.ok || cancelled target) _ s))))

  run_targets-Tries :
      (targets : List String) → Tries targets (run_targets limits label run cancelled targets)
  unfolding validation_command_result
  run_targets-Tries [] = (λ t m. m, λ k. ground arith)
  run_targets-Tries (target ∷ targets) =
      let attempt = run target in
      if-cases (Tries (target ∷ targets))
        (attempt.ok || cancelled target || not (should_try_alternate_package_target attempt))
        (record { tried = target ∷ []; result = attempt })
        (also_tried target (run_alternates limits label run cancelled attempt targets))
        (λ s. only-Tries target targets attempt (λ k. k))
        (λ s.
          also-Tries target targets (run_alternates limits label run cancelled attempt targets) (
            alternates-Tries targets attempt (
              split_or attempt.ok (cancelled target)
                (split_or (attempt.ok || cancelled target) _ s))))

  -- Every target that an update is run for is one of the candidates without the spaces around it, is
  -- not empty, has at most 240 bytes, none of the blocked characters, and does not read as an option.
  pub run_package_update_candidates-IsSafe :
      (candidates : List String) (t : String)
      → Memᴰ t (run_package_update_candidates limits label run cancelled candidates).tried
      → IsSafe t × ((c : String) × Memᴰ c candidates × (t ≡ trim_space c))
  unfolding run_package_update_candidates
  run_package_update_candidates-IsSafe candidates t m =
      let n = (run_targets-Tries (unique_update_targets candidates)).0 t m in
      let (u, c) = of_unique candidates t n in (fit-IsSafe t u, c)

  -- A good result is that of a target that the update was run for.
  pub run_package_update_candidates-ok :
      (candidates : List String)
      → (run_package_update_candidates limits label run cancelled candidates).result.ok ≡ true
      → (t : String) × Memᴰ t
          (run_package_update_candidates limits label run cancelled candidates).tried
        × ((run t).ok ≡ true)
  unfolding run_package_update_candidates
  run_package_update_candidates-ok candidates h =
      (run_targets-Tries (unique_update_targets candidates)).1 h
