-- ===== src/Commands/OutputTail/Bounds.antt =====
-- The tail is the end of the output.
use patch_board.Common.{
  ℕ, zero, suc, ◌+◌, ◌-◌, ◌≤◌, ◌<◌, ◌≡◌, refl, sym, ap, ◌∙◌, arith, List, [], ◌∷◌, ◌++◌, length,
  length-append,
}
use patch_board.Commands.OutputTail.{
  drop, BoundedCommandOutputTail, new_bounded_output_tail, write, write_all,
}

module _ {A : Type 0} where
  pub length-drop : (n : ℕ) (xs : List A) → length (drop n xs) ≡ length xs - n
  unfolding drop
  length-drop zero xs = ground arith
  length-drop (suc n) [] = ground arith
  length-drop (suc n) (x ∷ xs) = ground (arith, length-drop n xs)

  drop-all : (n : ℕ) (xs : List A) → length xs ≤ n → drop n xs ≡ []
  unfolding drop
  drop-all zero [] h = refl
  drop-all (suc n) [] h = refl
  drop-all zero (x ∷ xs) h = ground arith
  drop-all (suc n) (x ∷ xs) h = drop-all n xs (ground arith)

  append_nil : (xs : List A) → xs ++ [] ≡ xs
  append_nil [] = refl
  append_nil (x ∷ xs) = ap (λ ys. x ∷ ys) (append_nil xs)

  drop-append_left : (n : ℕ) (xs ys : List A) → n ≤ length xs → drop n (xs ++ ys) ≡ drop n xs ++ ys
  unfolding drop
  drop-append_left zero xs ys h = refl
  drop-append_left (suc n) [] ys h = ground arith
  drop-append_left (suc n) (x ∷ xs) ys h = drop-append_left n xs ys (ground arith)

  drop-append_right : (n k : ℕ) (xs ys : List A) → k ≡ length xs + n → drop k (xs ++ ys) ≡ drop n ys
  unfolding drop
  drop-append_right n k [] ys h = let e : k ≡ n = omega arith in ap (λ j. drop j ys) e
  drop-append_right n zero (x ∷ xs) ys h = ground arith
  drop-append_right n (suc k) (x ∷ xs) ys h = drop-append_right n k xs ys (ground arith)

  drop-drop : (n k j : ℕ) (xs : List A) → j ≡ k + n → drop n (drop k xs) ≡ drop j xs
  unfolding drop
  drop-drop n zero j xs h = let e : n ≡ j = omega arith in ap (λ i. drop i xs) e
  drop-drop zero (suc k) zero [] h = refl
  drop-drop (suc n) (suc k) zero [] h = refl
  drop-drop zero (suc k) (suc j) [] h = refl
  drop-drop (suc n) (suc k) (suc j) [] h = refl
  drop-drop n (suc k) zero (x ∷ xs) h = ground arith
  drop-drop n (suc k) (suc j) (x ∷ xs) h = drop-drop n k j xs (ground arith)

-- The bytes that a command wrote, in one piece.
abbrev pub concat : List (List ℕ) → List ℕ
concat [] = []
concat (chunk ∷ chunks) = chunk ++ concat chunks

-- The tail keeps the last bytes of what was written, as many as the limit allows, and counts the
-- others.
abbrev pub IsTailOf : BoundedCommandOutputTail → List ℕ → Type 0
IsTailOf tail bytes =
    (tail.retained_bytes ≡ drop (length bytes - tail.limit_bytes) bytes)
    × (tail.omitted_bytes ≡ length bytes - tail.limit_bytes)

write-limit :
    (tail : BoundedCommandOutputTail) (chunk : List ℕ)
    → (write tail chunk).limit_bytes ≡ tail.limit_bytes
unfolding write
write-limit tail chunk = ground arith

module _ (limit : ℕ) (bytes chunk : List ℕ) where
  abbrev kept : List ℕ
  kept = drop (length bytes - limit) bytes

  abbrev due : List ℕ
  due = drop (length (bytes ++ chunk) - limit) (bytes ++ chunk)

  length-kept : length kept ≡ length bytes - (length bytes - limit)
  length-kept = length-drop (length bytes - limit) bytes

  due_of_no_limit : limit ≡ 0 → kept ≡ due
  due_of_no_limit h =
      drop-all (length bytes - limit) bytes (omega arith)
      ∙ sym (drop-all (length (bytes ++ chunk) - limit) (bytes ++ chunk) (omega arith))

  due_of_long_chunk : limit ≤ length chunk → drop (length chunk - limit) chunk ≡ due
  due_of_long_chunk h = sym (
      drop-append_right (length chunk - limit) (length (bytes ++ chunk) - limit) bytes chunk
        (omega (arith, length-append bytes chunk)))

  due_of_overflow :
      length chunk < limit
      → 0 < length kept + length chunk - limit
      → drop (length kept + length chunk - limit) kept ++ chunk ≡ due
  due_of_overflow short over =
      ap (λ xs. xs ++ chunk)
        (drop-drop (length kept + length chunk - limit) (length bytes - limit)
          (length (bytes ++ chunk) - limit) bytes
          (omega (arith, length-append bytes chunk, length-kept)))
      ∙ sym (
          drop-append_left (length (bytes ++ chunk) - limit) bytes chunk
            (omega (arith, length-append bytes chunk)))

  due_of_room : 0 < length chunk → length kept + length chunk ≤ limit → kept ++ chunk ≡ due
  due_of_room some_bytes room =
      let e : length bytes - limit ≡ length (bytes ++ chunk) - limit =
        omega (arith, length-append bytes chunk, length-kept) in
      sym (drop-append_left (length bytes - limit) bytes chunk (omega arith))
      ∙ ap (λ n. drop n (bytes ++ chunk)) e

write-IsTailOf :
    (tail : BoundedCommandOutputTail) (chunk bytes : List ℕ)
    → IsTailOf tail bytes
    → IsTailOf (write tail chunk) (bytes ++ chunk)
unfolding write
write-IsTailOf tail [] bytes h = rw (append_nil bytes) h
write-IsTailOf tail (c ∷ cs) bytes (kept_bytes, omitted) =
    let limit = tail.limit_bytes in
    let chunk = c ∷ cs in
    let some_bytes : 0 < length chunk = ground arith in
    ground (
      arith,
      length-append bytes chunk,
      length-kept limit bytes chunk,
      ap (length {A = ℕ}) kept_bytes,
      due_of_no_limit limit bytes chunk,
      due_of_long_chunk limit bytes chunk,
      due_of_overflow limit bytes chunk,
      due_of_room limit bytes chunk some_bytes,
    )

append_assoc : (xs ys zs : List ℕ) → (xs ++ ys) ++ zs ≡ xs ++ (ys ++ zs)
append_assoc [] ys zs = refl
append_assoc (x ∷ xs) ys zs = ap (λ rest. x ∷ rest) (append_assoc xs ys zs)

write_all-after :
    (tail : BoundedCommandOutputTail) (bytes : List ℕ) (chunks : List (List ℕ))
    → IsTailOf tail bytes
    → IsTailOf (write_all tail chunks) (bytes ++ concat chunks)
unfolding write_all
write_all-after tail bytes [] h = rw (append_nil bytes) h
write_all-after tail bytes (chunk ∷ chunks) h =
    rw (← append_assoc bytes chunk (concat chunks)) (
      write_all-after (write tail chunk) (bytes ++ chunk) chunks
        (write-IsTailOf tail chunk bytes h))

write_all-limit :
    (tail : BoundedCommandOutputTail) (chunks : List (List ℕ))
    → (write_all tail chunks).limit_bytes ≡ tail.limit_bytes
unfolding write_all
write_all-limit tail [] = refl
write_all-limit tail (chunk ∷ chunks) =
    write_all-limit (write tail chunk) chunks ∙ write-limit tail chunk

-- However a command's output is cut into chunks, a new buffer ends up with the last bytes of all of
-- it, as many as the limit allows, and with the number of the bytes before them.
pub write_all-tail :
    (limit : ℕ) (chunks : List (List ℕ))
    → ((write_all (new_bounded_output_tail limit) chunks).retained_bytes
        ≡ drop (length (concat chunks) - limit) (concat chunks))
      × ((write_all (new_bounded_output_tail limit) chunks).omitted_bytes
          ≡ length (concat chunks) - limit)
unfolding new_bounded_output_tail drop
write_all-tail limit chunks =
    let new = new_bounded_output_tail limit in
    let same = write_all-limit new chunks in
    let (kept, omitted) = write_all-after new [] chunks (ground arith) in
    (
      kept ∙ ap (λ n. drop (length (concat chunks) - n) (concat chunks)) same,
      omitted ∙ ap (λ n. length (concat chunks) - n) same,
    )

-- A buffer never keeps more bytes than its limit, and the kept and the omitted bytes add up to what was
-- written.
length-write_all :
    (limit : ℕ) (chunks : List (List ℕ))
    → (length (write_all (new_bounded_output_tail limit) chunks).retained_bytes ≤ limit)
      × (length (write_all (new_bounded_output_tail limit) chunks).retained_bytes
            + (write_all (new_bounded_output_tail limit) chunks).omitted_bytes
          ≡ length (concat chunks))
length-write_all limit chunks =
    let (kept, omitted) = write_all-tail limit chunks in
    let e =
      ap (length {A = ℕ}) kept ∙ length-drop (length (concat chunks) - limit) (concat chunks) in
    (omega arith, omega arith)
