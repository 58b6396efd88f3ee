-- ===== src/Store/Evidence/Flags.antt =====
-- What the loop has seen: any evidence, blocking evidence, and the required providers.
use text.Mathlib.TextEquality.{eq_iff}
use patch_board.Common.{
  String, Bool, true, false, not, ◌&&◌, ◌||◌, List, [], ◌∷◌, ◌++◌, ◌≡◌, refl, arith, is_empty, any,
}
use patch_board.Common.Text.{str_eq, nonempty}
use patch_board.Common.Dict.{contains, contains-add}
use patch_board.Store.Model.{
  store_provider_key, StoreEvidenceSummary, StoreProviderObservation, matches,
  StoreReconciliationInput,
}
use patch_board.Store.Model.Laws.{nonempty-store_provider_key}
use patch_board.Store.Evidence.{Collected, nothing_collected, collect, collect_one}
use patch_board.Store.Evidence.Kept.{is_blocking}

or_assoc : (a b c : Bool) → ((a || b) || c) ≡ (a || (b || c))
or_assoc a b c = ground arith

is_empty-concat {ℓ} : {A : Type ℓ} (xs : List A) (x : A) → is_empty (xs ++ x ∷ []) ≡ false
is_empty-concat [] x = refl
is_empty-concat (y ∷ xs) x = refl

abbrev summary : StoreProviderObservation → StoreEvidenceSummary
summary o = record { provider = store_provider_key o.provider; health = o.health; kind = o.kind }

-- Evidence from the given provider.
abbrev pub is_from : StoreReconciliationInput → String → StoreProviderObservation → Bool
is_from input key o =
    matches o input.identity input.scan && str_eq (store_provider_key o.provider) key

abbrev pub is_blocking_required :
    StoreReconciliationInput → List String → StoreProviderObservation → Bool
is_blocking_required input required o =
    is_blocking input o && contains (store_provider_key o.provider) required

module _ (input : StoreReconciliationInput) (required : List String) where
  module _ (flag : Collected → Bool) (p : StoreProviderObservation → Bool)
      (step : (c : Collected) (o : StoreProviderObservation)
        → flag (collect_one input required c o) ≡ (flag c || p o)) where
    collect-flag :
        (c : Collected) (os : List StoreProviderObservation)
        → flag (collect input required c os) ≡ (flag c || any p os)
    unfolding collect any
    collect-flag c [] = ground arith
    collect-flag c (o ∷ os) =
        rw (collect-flag (collect_one input required c o) os)
          (rw (step c o) (or_assoc (flag c) (p o) (any p os)))

  collect_one-evidence :
      (c : Collected) (o : StoreProviderObservation)
      → not (is_empty (collect_one input required c o).evidence)
        ≡ (not (is_empty c.evidence) || matches o input.identity input.scan)
  unfolding collect_one
  collect_one-evidence c o = ground (arith, is_empty-concat c.evidence (summary o))

  collect_one-blocking :
      (c : Collected) (o : StoreProviderObservation)
      → nonempty (collect_one input required c o).first_blocking_provider
        ≡ (nonempty c.first_blocking_provider || is_blocking input o)
  unfolding collect_one
  collect_one-blocking c o = ground (arith, nonempty-store_provider_key o.provider)

  collect_one-blocked_required :
      (c : Collected) (o : StoreProviderObservation)
      → nonempty (collect_one input required c o).blocked_required_provider
        ≡ (nonempty c.blocked_required_provider || is_blocking_required input required o)
  unfolding collect_one
  collect_one-blocked_required c o = ground (arith, nonempty-store_provider_key o.provider)

  -- Seen are the required providers, and no others.
  collect_one-seen :
      (key : String) (c : Collected) (o : StoreProviderObservation)
      → contains key required ≡ true
      → contains key (collect_one input required c o).seen_required_providers
        ≡ (contains key c.seen_required_providers || is_from input key o)
  unfolding collect_one
  collect_one-seen key c o h = ground (
    arith,
    eq_iff (store_provider_key o.provider) key,
    contains-add (store_provider_key o.provider) key c.seen_required_providers,
  )

  pub collect-evidence :
      (os : List StoreProviderObservation)
      → not (is_empty (collect input required nothing_collected os).evidence)
        ≡ any (λ o. matches o input.identity input.scan) os
  collect-evidence os =
      collect-flag (λ c. not (is_empty c.evidence)) (λ o. matches o input.identity input.scan)
        collect_one-evidence nothing_collected os

  pub collect-blocking :
      (os : List StoreProviderObservation)
      → nonempty (collect input required nothing_collected os).first_blocking_provider
        ≡ any (is_blocking input) os
  collect-blocking os =
      collect-flag (λ c. nonempty c.first_blocking_provider) (is_blocking input)
        collect_one-blocking nothing_collected os

  pub collect-blocked_required :
      (os : List StoreProviderObservation)
      → nonempty (collect input required nothing_collected os).blocked_required_provider
        ≡ any (is_blocking_required input required) os
  collect-blocked_required os =
      collect-flag (λ c. nonempty c.blocked_required_provider) (is_blocking_required input required)
        collect_one-blocked_required nothing_collected os

  pub collect-seen :
      (key : String) (os : List StoreProviderObservation)
      → contains key required ≡ true
      → contains key (collect input required nothing_collected os).seen_required_providers
        ≡ any (is_from input key) os
  unfolding contains
  collect-seen key os h =
      collect-flag (λ c. contains key c.seen_required_providers) (is_from input key)
        (λ c o. collect_one-seen key c o h) nothing_collected os
