-- ===== src/Commands/OutputTail.antt =====
-- internal/updater/command_output_tail.go: the buffer that keeps the last bytes of a command's output.
-- A limit that is not positive is 0; the count of omitted bytes is taken not to reach 2 ^ 63.
pub mod Bounds
use patch_board.Common.{
  ℕ, zero, suc, ◌+◌, ◌-◌, List, [], ◌∷◌, ◌++◌, length, ltb, leb, ◌==◌, if◌then◌else◌,
}

-- `s[n:]`.
unfoldable pub drop {ℓ} : {A : Type ℓ} → ℕ → List A → List A
drop zero xs = xs
drop (suc n) [] = []
drop (suc n) (x ∷ xs) = drop n xs

pub record BoundedCommandOutputTail : Type 0 where
  pub limit_bytes : ℕ
  pub retained_bytes : List ℕ
  pub omitted_bytes : ℕ

unfoldable pub new_bounded_output_tail : ℕ → BoundedCommandOutputTail
new_bounded_output_tail limit = record {
  limit_bytes = limit;
  retained_bytes = [];
  omitted_bytes = 0;
}

-- The result of `Write` is always the length of the chunk.
unfoldable pub write : BoundedCommandOutputTail → List ℕ → BoundedCommandOutputTail
write tail chunk =
    let chunk_len = length chunk in
    let retained_len = length tail.retained_bytes in
    let overflow = retained_len + chunk_len - tail.limit_bytes in
    if chunk_len == 0
    then tail
    else if tail.limit_bytes == 0
    then record tail { omitted_bytes = tail.omitted_bytes + chunk_len }
    else if leb tail.limit_bytes chunk_len
    then record tail {
      omitted_bytes = tail.omitted_bytes + (retained_len + chunk_len - tail.limit_bytes);
      retained_bytes = drop (chunk_len - tail.limit_bytes) chunk;
    }
    else if ltb 0 overflow
    then record tail {
      omitted_bytes = tail.omitted_bytes + overflow;
      retained_bytes = drop overflow tail.retained_bytes ++ chunk;
    }
    else record tail { retained_bytes = tail.retained_bytes ++ chunk }

-- A command writes one chunk after the other.
unfoldable pub write_all : BoundedCommandOutputTail → List (List ℕ) → BoundedCommandOutputTail
write_all tail [] = tail
write_all tail (chunk ∷ chunks) = write_all (write tail chunk) chunks
