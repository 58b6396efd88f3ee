-- ===== src/Packages/Retry/Laws.antt =====
-- What normalising the result of a package action keeps.
use Prim.Native.String.{◌++◌ as text_append}
use patch_board.Common.{
  String, Bool, true, false, not, ◌||◌, ◌⊎◌, if◌then◌else◌, if-cases, ◌≡◌, refl, ◌∙◌, arith,
  Bool-cases, inl, inr,
}
use patch_board.Commands.Result.{CommandResult}
use patch_board.Common.Text.{nonempty, trim_space}
use patch_board.Common.Text.Search.{contains_text, trim_right_newlines}
use patch_board.Packages.Retry.{
  package_action_restart_note, has_package_action_success_output,
  is_package_action_restart_success_code, with_restart_note, normalize_package_action_result,
}

-- The output is the same, or it has a note about a restart at its end.
abbrev pub OutputOf : CommandResult → CommandResult → Type 0
OutputOf r n =
    (n.stdout ≡ r.stdout)
    ⊎ ((nonempty (package_action_restart_note r.code) ≡ true)
        × (n.stdout ≡ (
            if nonempty (trim_space r.stdout)
            then text_append (trim_right_newlines r.stdout)
                (text_append "\n" (package_action_restart_note r.code))
            else package_action_restart_note r.code)))

-- The note changes the output only.
abbrev Noted : CommandResult → CommandResult → Type 0
Noted r n =
    (n.ok ≡ r.ok)
    × (n.code ≡ r.code)
    × (n.stderr ≡ r.stderr)
    × (n.command ≡ r.command)
    × OutputOf r n

quiet : (a b : Bool) → (not a || b) ≡ false → a ≡ true
quiet a b h = ground arith

note-Noted : (r : CommandResult) → Noted r (with_restart_note r)
unfolding with_restart_note
note-Noted r =
    let note = package_action_restart_note r.code in
    if-cases (Noted r) (not (nonempty note) || contains_text (text_append r.stdout r.stderr) note) r
      _ (λ h. (refl, refl, refl, refl, inl refl))
      (λ h. (refl, refl, refl, refl, inr (quiet (nonempty note) _ h, refl)))

normalize_good :
    (manager : String) (r : CommandResult)
    → r.ok ≡ true
    → normalize_package_action_result manager r ≡ r
unfolding normalize_package_action_result
normalize_good manager r h = rw (h) refl

-- What a normalised result keeps, and what it changes.
pub record IsNormal (manager : String) (r n : CommandResult) : Type 0 where
  pub same_code : n.code ≡ r.code
  pub same_error : n.stderr ≡ r.stderr
  pub same_command : n.command ≡ r.command
  pub output : OutputOf r n
  pub good_same : r.ok ≡ true → n ≡ r
  pub good_iff : n.ok ≡ (
      r.ok
      || is_package_action_restart_success_code manager r.code
      || has_package_action_success_output r)
  pub settled : normalize_package_action_result manager n ≡ n

abbrev is_excused : String → CommandResult → Bool
is_excused manager r =
    is_package_action_restart_success_code manager r.code || has_package_action_success_output r

normalize_excused :
    (manager : String) (r : CommandResult)
    → r.ok ≡ false
    → is_excused manager r ≡ true
    → normalize_package_action_result manager r ≡ with_restart_note (record r { ok = true })
unfolding normalize_package_action_result
normalize_excused manager r h e = rw (h, e) refl

normalize_failed :
    (manager : String) (r : CommandResult)
    → r.ok ≡ false
    → is_excused manager r ≡ false
    → normalize_package_action_result manager r ≡ r
unfolding normalize_package_action_result
normalize_failed manager r h e = rw (h, e) refl

three : (a b c : Bool) → a ≡ true → true ≡ (a || b || c)
three a b c h = ground arith

late : (a b c d : Bool) → a ≡ false → (b || c) ≡ d → d ≡ (a || b || c)
late a b c d h e = ground arith

disagree : (b : Bool) → b ≡ true → b ≡ false → ⊥
disagree b t f = ground arith

kept-IsNormal :
    {manager : String} {r : CommandResult}
    → r.ok ≡ (
        r.ok
        || is_package_action_restart_success_code manager r.code
        || has_package_action_success_output r)
    → normalize_package_action_result manager r ≡ r
    → IsNormal manager r r
kept-IsNormal good n = record {
  same_code = refl;
  same_error = refl;
  same_command = refl;
  output = inl refl;
  good_same = λ g. refl;
  good_iff = good;
  settled = n;
}

-- Normalising the result of a package action keeps its code, its error output and its command, and keeps
-- a good result as it is; the output gets at most a note about a restart. A failure is made good
-- exactly for a restart code of a known package manager or an output that reports success. Doing it
-- twice is doing it once.
pub normalize_package_action_result-IsNormal :
    (manager : String) (r : CommandResult)
    → IsNormal manager r (normalize_package_action_result manager r)
normalize_package_action_result-IsNormal manager r = elim (Bool-cases r.ok) [
  | inl h ↦ let n = normalize_good manager r h in rw (n) (kept-IsNormal (h ∙ three r.ok _ _ h) n)
  | inr h ↦ elim (Bool-cases (is_excused manager r)) [
    | inl e ↦
        let good = record r { ok = true } in
        let (o, c, s, m, out) = note-Noted good in
        rw (normalize_excused manager r h e) (record {
          same_code = c;
          same_error = s;
          same_command = m;
          output = out;
          good_same = λ g. absurd (disagree r.ok g h);
          good_iff = o ∙ late r.ok _ _ true h e;
          settled = normalize_good manager (with_restart_note good) o;
        })
    | inr e ↦
        let n = normalize_failed manager r h e in
        rw (n) (kept-IsNormal (h ∙ late r.ok _ _ false h e) n)
  ]
]
