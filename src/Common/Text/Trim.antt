-- ===== src/Common/Text/Trim.antt =====
-- Trimming, and texts of which nothing is left to trim.
use Prim.Native.Char.{code}
use Prim.Native.String.{String}
use mathlib.Core.Path.{◌≡◌, refl, ap, ◌∙◌}
use mathlib.Core.Bool.{Bool, true, false, not}
use native.Mathlib.Omega.{arith}
use patch_board.Common.Text.{nonempty, is_space, trim_left, trim_right, trim_space, to_lower}

-- The text does not begin with a space.
abbrev begins_flush : String → Bool
begins_flush String.[] = true
begins_flush (String.◌∷◌ c s) = not (is_space (code c))

begins_flush-trim_left : (s : String) → begins_flush (trim_left s) ≡ true
unfolding trim_left
begins_flush-trim_left String.[] = refl
begins_flush-trim_left (String.◌∷◌ c s) = ground (arith, begins_flush-trim_left s)

begins_flush-trim_right : (s : String) → begins_flush s ≡ true → begins_flush (trim_right s) ≡ true
unfolding trim_right
begins_flush-trim_right String.[] h = refl
begins_flush-trim_right (String.◌∷◌ c s) h = ground arith

trim_left_of_begins_flush : (s : String) → begins_flush s ≡ true → trim_left s ≡ s
unfolding trim_left
trim_left_of_begins_flush String.[] h = refl
trim_left_of_begins_flush (String.◌∷◌ c s) h = ground arith

trim_right_idem : (s : String) → trim_right (trim_right s) ≡ trim_right s
unfolding trim_right
trim_right_idem String.[] = refl
trim_right_idem (String.◌∷◌ c s) = ground (arith, trim_right_idem s)

-- Trimming a trimmed text changes nothing.
pub trim_space_idem : (s : String) → trim_space (trim_space s) ≡ trim_space s
unfolding trim_space
trim_space_idem s =
    ap trim_right (
      trim_left_of_begins_flush (trim_right (trim_left s))
        (begins_flush-trim_right (trim_left s) (begins_flush-trim_left s)))
    ∙ trim_right_idem (trim_left s)

trimmed : to_lower (trim_space "  PatchBÄard \t") ≡ "patchbäard"
unfolding to_lower trim_space
trimmed = refl

pub trim_space-nil : trim_space "" ≡ ""
unfolding trim_space
trim_space-nil = refl

pub eq-nil_of_not_nonempty : (s : String) → nonempty s ≡ false → s ≡ ""
eq-nil_of_not_nonempty String.[] h = refl
eq-nil_of_not_nonempty (String.◌∷◌ c s) h = cc
