-- ===== src/Store/Execution/Verify/Laws.antt =====
-- What the verification loop returns rests on, and that it returns once its context has ended.
use mathlib.Core.List.{Memᴰ}
use patch_board.Common.{
  some_inj, ℕ, String, Bool, true, false, Option, none, some, List, [], ◌∷◌, any, if◌then◌else◌,
  ◌≡◌, refl, sym, ap, inl, inr, ◌⊎◌, arith, Bool-cases,
}
use patch_board.Commands.Result.{
  CommandResult, TextLimits, merge_command_attempts_with_final_result,
}
use patch_board.Store.Authorize.{
  StoreExactUpdateRequest, StoreExactPackageSnapshot, store_snapshot_verifies_update,
  store_catalog_verifies_update,
}
use patch_board.Store.Authorize.Verified.{
  IsUpdated, IsSettled, store_snapshot_verifies_update-IsUpdated,
  store_catalog_verifies_update-IsSettled,
}
use patch_board.Store.Execution.Verify.{
  ContextError, Wake, done, closed, event, tick, Round, StoreExactVerificationResult, Waiting,
  woken, waited, round_outcome, verification_loop, verify_accepted_action_with_events,
}

-- The round's own evidence proves the update.
abbrev pub Proves : StoreExactUpdateRequest → StoreExactPackageSnapshot → Round → Type 0
Proves request before round =
    IsUpdated request before round.snapshot ⊎ IsSettled request before round.catalog round.snapshot

abbrev pub is_done : Round → Bool
is_done round = elim round.wake [ done e ↦ true | closed ↦ false | event e ↦ false | tick ↦ false ]

-- What a returned result rests on, in the round that returned it.
abbrev pub Rests :
    StoreExactUpdateRequest
    → StoreExactPackageSnapshot
    → StoreExactVerificationResult
    → Round
    → Type 0
Rests request before r round =
    (r.post ≡ round.snapshot)
    × (((r.verified ≡ true) × Proves request before round)
        ⊎ ((r.verified ≡ false)
            × ((e : ContextError) × (round.wake ≡ done e) × (r.ended ≡ some e))))

three_ways {ℓ} :
    {A : Type ℓ} (b c : Bool) (x y r : A) (o : Option A)
    → (if b then some x else if c then some y else o) ≡ some r
    → ((b ≡ true) × (x ≡ r)) ⊎ (((b ≡ false) × (c ≡ true) × (y ≡ r)) ⊎ (o ≡ some r))
three_ways true c x y r o h = inl (refl, cc)
three_ways false true x y r o h = inr (inl (refl, refl, cc))
three_ways false false x y r o h = inr (inr h)

waited-done :
    (merged : CommandResult) (round : Round) (w : Wake) (r : StoreExactVerificationResult)
    → waited merged round w ≡ some r
    → (r.post ≡ round.snapshot)
      × (r.verified ≡ false)
      × ((e : ContextError) × (w ≡ done e) × (r.ended ≡ some e))
waited-done merged round (done e) r h =
    let q = some_inj _ r h in
    (ap (λ x. x.post) (sym q), ap (λ x. x.verified) (sym q), (e, refl, ap (λ x. x.ended) (sym q)))
waited-done merged round closed r h = ground arith
waited-done merged round (event e) r h = ground arith
waited-done merged round tick r h = ground arith

some_third {ℓ} :
    {A : Type ℓ} (b c : Bool) (x y : A) (o : Option A)
    → ((r : A) × (o ≡ some r))
    → (r : A) × ((if b then some x else if c then some y else o) ≡ some r)
some_third true c x y o h = (x, refl)
some_third false true x y o h = (y, refl)
some_third false false x y o h = h

waited-some :
    (merged : CommandResult) (round : Round) (w : Wake)
    → (elim w [ done e ↦ true | closed ↦ false | event e ↦ false | tick ↦ false ]) ≡ true
    → (r : StoreExactVerificationResult) × (waited merged round w ≡ some r)
waited-some merged round (done e) h = (_, refl)
waited-some merged round closed h = ground arith
waited-some merged round (event e) h = ground arith
waited-some merged round tick h = ground arith

module _ (limits : TextLimits) (request : StoreExactUpdateRequest)
    (before : StoreExactPackageSnapshot) where
  outcome-Rests :
      (waiting : Waiting) (merged : CommandResult) (round : Round)
      (r : StoreExactVerificationResult)
      → round_outcome limits request before waiting merged round ≡ some r
      → Rests request before r round
  unfolding round_outcome
  outcome-Rests waiting merged round r h =
      elim (three_ways (store_snapshot_verifies_update request before round.snapshot).0
        (store_catalog_verifies_update request before round.catalog round.snapshot) _ _ r
        (waited merged round round.wake) h) [
          | inl (v, e) ↦ (
            ap (λ x. x.post) (sym e),
            inl (
              ap (λ x. x.verified) (sym e),
              inl (store_snapshot_verifies_update-IsUpdated request before round.snapshot v),
            ),
          )
          | inr (inl (n, v, e)) ↦ (
            ap (λ x. x.post) (sym e),
            inl (
              ap (λ x. x.verified) (sym e),
              inr (
                  (store_catalog_verifies_update-IsSettled request before round.catalog
                      round.snapshot).0
                    v),
            ),
          )
          | inr (inr w) ↦ let (p, v, d) = waited-done merged round round.wake r w in (p, inr (v, d))
        ]

  outcome-done :
      (waiting : Waiting) (merged : CommandResult) (round : Round)
      → is_done round ≡ true
      → (r : StoreExactVerificationResult) × (round_outcome limits request before waiting merged
            round
          ≡ some r)
  unfolding round_outcome
  outcome-done waiting merged round h =
      some_third (store_snapshot_verifies_update request before round.snapshot).0
        (store_catalog_verifies_update request before round.catalog round.snapshot) _ _
        (waited merged round round.wake) (waited-some merged round round.wake h)

  first_of {ℓ} :
      {A : Type ℓ} (o rest : Option A) (r : A)
      → (elim o [ some x ↦ some x | none ↦ rest ]) ≡ some r
      → (o ≡ some r) ⊎ (rest ≡ some r)
  first_of none rest r h = inr h
  first_of (some x) rest r h = inl h

  verification_loop-Rests :
      (started_at : ℕ) (rounds : List Round) (waiting : Waiting) (r : StoreExactVerificationResult)
      → verification_loop limits request before started_at waiting rounds ≡ some r
      → (round : Round) × Memᴰ round rounds × Rests request before r round
  unfolding verification_loop
  verification_loop-Rests started_at [] waiting r h = ground arith
  verification_loop-Rests started_at (round ∷ rounds) waiting r h =
      let merged =
        merge_command_attempts_with_final_result limits waiting.result round.catalog_result
          "targeted Store catalog query" in
      let next = woken request started_at round.wake (record waiting { result = merged }) in
      elim (first_of (round_outcome limits request before waiting merged round)
        (verification_loop limits request before started_at next rounds) r h) [
          | inl now ↦ (round, Memᴰ.head refl, outcome-Rests waiting merged round r now)
          | inr later ↦
              let (other, m, p) = verification_loop-Rests started_at rounds next r later in
              (other, Memᴰ.tail m, p)
        ]

  some_of {ℓ} :
      {A : Type ℓ} (o rest : Option A)
      → ((r : A) × (o ≡ some r)) ⊎ ((r : A) × (rest ≡ some r))
      → (r : A) × ((elim o [ some x ↦ some x | none ↦ rest ]) ≡ some r)
  some_of none rest (inl (r, e)) = ground arith
  some_of none rest (inr p) = p
  some_of (some x) rest h = (x, refl)

  verification_loop-returns :
      (started_at : ℕ) (rounds : List Round) (waiting : Waiting)
      → any is_done rounds ≡ true
      → (r : StoreExactVerificationResult) × (verification_loop limits request before started_at
            waiting rounds
          ≡ some r)
  unfolding verification_loop any
  verification_loop-returns started_at [] waiting h = ground arith
  verification_loop-returns started_at (round ∷ rounds) waiting h =
      elim (Bool-cases (is_done round)) [
        | inl d ↦ some_of _ _ (inl (outcome-done waiting _ round d))
        | inr n ↦ some_of _ _ (inr (verification_loop-returns started_at rounds _ (ground arith)))
      ]

  -- The verification returns as soon as its context has ended in one of the rounds, whatever the
  -- subscription, the enumerations, the catalog and the other wake-ups gave.
  pub verify_accepted_action_with_events-returns :
      (started_at : ℕ) (subscription_error : Option String) (rounds : List Round)
      → any is_done rounds ≡ true
      → (r : StoreExactVerificationResult) × (verify_accepted_action_with_events limits request
            before started_at subscription_error rounds
          ≡ some r)
  unfolding verify_accepted_action_with_events
  verify_accepted_action_with_events-returns started_at subscription_error rounds h =
      verification_loop-returns started_at rounds _ h

  -- What the verification returns was seen in one of its rounds: the snapshot is that round's, and
  -- the update is either verified, by that round's enumeration or by its catalog query, or not
  -- verified, and then the context ended in that round. No event verifies an update by itself.
  pub verify_accepted_action_with_events-Rests :
      (started_at : ℕ) (subscription_error : Option String) (rounds : List Round)
      (r : StoreExactVerificationResult)
      → verify_accepted_action_with_events limits request before started_at subscription_error
          rounds
        ≡ some r
      → (round : Round) × Memᴰ round rounds × Rests request before r round
  unfolding verify_accepted_action_with_events
  verify_accepted_action_with_events-Rests started_at subscription_error rounds r h =
      verification_loop-Rests started_at rounds _ r h
