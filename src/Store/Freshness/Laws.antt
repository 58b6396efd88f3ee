-- ===== src/Store/Freshness/Laws.antt =====
-- Which published evidence may authorise an update.
use Prim.Native.String.{◌++◌}
use text.Mathlib.TextLemmas.{append-ne-nil_of_right_ne-nil}
use patch_board.Common.{
  ltb, ℕ, ◌+◌, ◌-◌, ◌≤◌, ◌<◌, ◌≡◌, ◌≢◌, ◌↔◌, refl, ap, arith, String, Bool, true, false, ==_iff,
  if◌then◌else◌,
}
use patch_board.Common.Text.{nonempty, equal_fold, trim_space}
use patch_board.Store.Model.{is_zero}
use patch_board.Store.Snapshot.{StoreScanSnapshot, StorePublishedAssessment}
use patch_board.Store.Freshness.{
  store_assessment_freshness_window, store_assessment_version_known,
  stale_store_evidence_time_reason, evaluate_published_store_assessment_freshness,
}

nonempty_of_ne-nil : (s : String) → s ≢ "" → nonempty s ≡ true
nonempty_of_ne-nil String.[] h = absurd (h refl)
nonempty_of_ne-nil (String.◌∷◌ c s) h = refl

ne-nil_of_nonempty : (s : String) → nonempty s ≡ true → s ≢ ""
ne-nil_of_nonempty String.[] h e = cc
ne-nil_of_nonempty (String.◌∷◌ c s) h e = ground (arith, ap nonempty e)

nonempty-append : (s t : String) → nonempty t ≡ true → nonempty (s ++ t) ≡ true
nonempty-append s t h =
    nonempty_of_ne-nil (s ++ t) (append-ne-nil_of_right_ne-nil s (ne-nil_of_nonempty t h))

-- The chosen text is empty when neither test holds.
nonempty-if :
    (b c : Bool) (x y : String)
    → nonempty x ≡ true
    → nonempty y ≡ true
    → (nonempty (if b then x else if c then y else "") ≡ false) ↔ ((b ≡ false) × (c ≡ false))
nonempty-if true c x y hx hy = ground arith
nonempty-if false true x y hx hy = ground arith
nonempty-if false false x y hx hy = ground arith

is_zero_iff : (time : ℕ) → (is_zero time ≡ true) ↔ (time ≡ 0)
is_zero_iff time = ==_iff time 0

-- The time is known, and lies at most two hours back.
abbrev pub IsRecent : ℕ → ℕ → Type 0
IsRecent time now = (0 < time) × (now ≤ time + store_assessment_freshness_window)

IsRecent-iff :
    (label : String) (time now : ℕ)
    → (nonempty (stale_store_evidence_time_reason label time now) ≡ false) ↔ IsRecent time now
unfolding stale_store_evidence_time_reason
IsRecent-iff label time now = ground (
  arith,
  is_zero_iff time,
  nonempty-if (is_zero time) (ltb store_assessment_freshness_window (now - time))
      (label ++ " time is unavailable") (label ++ " evidence is older than 2h0m0s")
      (nonempty-append label " time is unavailable" refl)
      (nonempty-append label " evidence is older than 2h0m0s" refl),
)

pub record IsFresh (snapshot : StoreScanSnapshot) (assessment : StorePublishedAssessment)
    (installed : String) (now : ℕ) : Type 0 where
  pub published : snapshot.published ≡ true
  pub first_hand : snapshot.recovered_from_fallback ≡ false
  pub not_retained : assessment.stale ≡ false
  pub scan_recent : IsRecent snapshot.scan.completed_at now
  pub observation_recent : IsRecent assessment.observed_at now
  pub installed_known : store_assessment_version_known (trim_space installed) ≡ true
  pub assessed_known :
      store_assessment_version_known (trim_space assessment.installed_version) ≡ true
  pub unchanged : equal_fold (trim_space installed) (trim_space assessment.installed_version) ≡ true

-- At a time after the zero time, evidence is fresh exactly when the snapshot was published and not recovered, the assessment is not
-- retained, both are at most two hours old, and the installed version is known and is still the one
-- that was assessed.
pub evaluate_published_store_assessment_freshness-IsFresh :
    (clock : ℕ) (snapshot : StoreScanSnapshot) (assessment : StorePublishedAssessment)
    (installed : String) (now : ℕ)
    → 0 < now
    → ((evaluate_published_store_assessment_freshness clock snapshot assessment installed now).fresh
        ≡ true)
      ↔ IsFresh snapshot assessment installed now
unfolding evaluate_published_store_assessment_freshness
evaluate_published_store_assessment_freshness-IsFresh clock snapshot assessment installed now h =
    ground (
      arith,
      IsRecent-iff "snapshot" snapshot.scan.completed_at now,
      IsRecent-iff "assessment" assessment.observed_at now,
    )
