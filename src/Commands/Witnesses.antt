-- ===== src/Commands/Witnesses.antt =====
-- Concrete inputs for the laws of the output tail.
use patch_board.Common.{ℕ, ◌-◌, ◌≡◌, refl, List, [], ◌∷◌, length}
use patch_board.Commands.OutputTail.{drop, new_bounded_output_tail, write_all}
use patch_board.Commands.OutputTail.Bounds.{concat, write_all-tail}

abbrev output : List (List ℕ)
output = (1 ∷ 2 ∷ []) ∷ [] ∷ (3 ∷ 4 ∷ 5 ∷ []) ∷ (6 ∷ []) ∷ []

kept_bytes : (write_all (new_bounded_output_tail 4) output).retained_bytes ≡ 3 ∷ 4 ∷ 5 ∷ 6 ∷ []
unfolding write_all patch_board.Commands.OutputTail.write new_bounded_output_tail drop
kept_bytes = refl

write_all-tail_example :
    ((write_all (new_bounded_output_tail 4) output).retained_bytes
      ≡ drop (length (concat output) - 4) (concat output))
    × ((write_all (new_bounded_output_tail 4) output).omitted_bytes ≡ length (concat output) - 4)
write_all-tail_example = write_all-tail 4 output
