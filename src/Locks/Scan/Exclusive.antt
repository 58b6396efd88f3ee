-- ===== src/Locks/Scan/Exclusive.antt =====
-- No two scans of one user hold their lock at the same time.
use mathlib.Core.Path.{subst}
use text.Mathlib.TextEquality.{eq_iff}
use text.Mathlib.TextPositions.{eq_refl}
use patch_board.Common.{
  ℕ, suc, String, Bool, true, false, Option, none, some, List, [], ◌∷◌, ◌≡◌, refl, sym, ◌∙◌, ap,
  inl, inr, ◌⊎◌, arith, Bool-cases, if◌then◌else◌, if-cases,
}
use patch_board.Common.{◌==◌ as num_eq}
use patch_board.Common.Text.{str_eq}
use patch_board.Common.Dict.{contains, Distinct}
use patch_board.Locks.Scan.Marks.{
  others, others-skip, others-keep, present, others-absent, others-Distinct,
}
use patch_board.Locks.Scan.{
  Ticket, StoreScanCoordinator, Acquired, context_ended, already_running, marked, begin_acquire,
  find_ticket, without_ticket, give_back, mark_returned, end_acquire, process_answered, release,
  released, keys_of, Step, begins, ends, releases, Reachable, start, then_step,
}

-- The marked keys are those of the tickets, in their order, and no key is marked twice.
abbrev pub IsExclusive : StoreScanCoordinator → Type 0
IsExclusive s = (s.running ≡ keys_of s.tickets) × Distinct s.running

find-cases :
    (id : ℕ) (u : Ticket) (ts : List Ticket) (t : Ticket)
    → find_ticket id (u ∷ ts) ≡ some t
    → ((num_eq u.id id ≡ true) × (u ≡ t))
      ⊎ ((num_eq u.id id ≡ false) × (find_ticket id ts ≡ some t))
unfolding find_ticket
find-cases id u ts t h =
    if-cases
      (λ (o : Option Ticket).
        o ≡ some t
        → ((num_eq u.id id ≡ true) × (u ≡ t))
          ⊎ ((num_eq u.id id ≡ false) × (find_ticket id ts ≡ some t)))
      (num_eq u.id id) (some u) (find_ticket id ts) (λ e k. inl (e, cc)) (λ e k. inr (e, k)) h

find-none : (id : ℕ) (t : Ticket) → find_ticket id [] ≡ some t → ⊥
unfolding find_ticket
find-none id t h = ground arith

without-first :
    (id : ℕ) (u : Ticket) (ts : List Ticket)
    → num_eq u.id id ≡ true
    → without_ticket id (u ∷ ts) ≡ ts
unfolding without_ticket
without-first id u ts h = rw (h) refl

without-later :
    (id : ℕ) (u : Ticket) (ts : List Ticket)
    → num_eq u.id id ≡ false
    → without_ticket id (u ∷ ts) ≡ u ∷ without_ticket id ts
unfolding without_ticket
without-later id u ts h = rw (h) refl

pub found-contains :
    (id : ℕ) (ts : List Ticket) (t : Ticket)
    → find_ticket id ts ≡ some t
    → contains t.key (keys_of ts) ≡ true
found-contains id [] t h = absurd (find-none id t h)
found-contains id (u ∷ ts) t h = elim (find-cases id u ts t h) [
  | inl (e, p) ↦ present t.key u.key (keys_of ts) (inl (rw (p) (eq_refl t.key)))
  | inr (e, k) ↦ present t.key u.key (keys_of ts) (inr (found-contains id ts t k))
]

unequal :
    (k j : String) (ks : List String)
    → contains k ks ≡ true
    → contains j ks ≡ false
    → str_eq j k ≡ false
unequal k j ks h n = elim (Bool-cases (str_eq j k)) [
  | inl e ↦
      let q : j ≡ k = (eq_iff j k).0 e in let r : contains j ks ≡ true = rw (q) h in ground arith
  | inr f ↦ f
]

-- Deleting the key of a ticket takes away just that ticket.
removed :
    (id : ℕ) (ts : List Ticket) (t : Ticket)
    → find_ticket id ts ≡ some t
    → Distinct (keys_of ts)
    → others t.key (keys_of ts) ≡ keys_of (without_ticket id ts)
removed id [] t h d = absurd (find-none id t h)
removed id (u ∷ ts) t h (n, d) = elim (find-cases id u ts t h) [
  | inl (e, p) ↦
      rw (without-first id u ts e, sym p)
        (others-skip u.key u.key (keys_of ts) (eq_refl u.key) ∙ others-absent u.key (keys_of ts) n)
  | inr (e, k) ↦
      let c = found-contains id ts t k in
      rw (without-later id u ts e) (
        others-keep t.key u.key (keys_of ts) (unequal t.key u.key (keys_of ts) c n)
        ∙ ap (λ xs. u.key ∷ xs) (removed id ts t k d))
]

marked-keys : (id : ℕ) (ts : List Ticket) → keys_of (mark_returned id ts) ≡ keys_of ts
unfolding mark_returned
marked-keys id [] = refl
marked-keys id (t ∷ ts) =
    if-cases (λ us. keys_of us ≡ keys_of (t ∷ ts)) (num_eq t.id id)
      (record t { returned = true } ∷ ts) (t ∷ mark_returned id ts) (λ e. refl)
      (λ e. ap (λ ks. t.key ∷ ks) (marked-keys id ts))

give_back-IsExclusive :
    (id : ℕ) (t : Ticket) (s : StoreScanCoordinator)
    → find_ticket id s.tickets ≡ some t
    → IsExclusive s
    → IsExclusive (give_back id t s)
unfolding give_back others
give_back-IsExclusive id t s h (e, d) =
    (rw (e) (removed id s.tickets t h (subst Distinct e d)), others-Distinct t.key s.running d)

answered-IsExclusive :
    (id : ℕ) (ok : Bool) (s : StoreScanCoordinator) (o : Option Ticket)
    → find_ticket id s.tickets ≡ o
    → IsExclusive s
    → IsExclusive (process_answered id ok s o)
answered-IsExclusive id ok s none h x = x
answered-IsExclusive id ok s (some t) h (e, d) =
    if-cases IsExclusive t.returned s
      (if ok then record s { tickets = mark_returned id s.tickets } else give_back id t s)
      (λ r. (e, d))
      (λ r.
        if-cases IsExclusive ok (record s { tickets = mark_returned id s.tickets })
          (give_back id t s) (λ k. (e ∙ sym (marked-keys id s.tickets), d))
          (λ k. give_back-IsExclusive id t s h (e, d)))

released-IsExclusive :
    (id : ℕ) (s : StoreScanCoordinator) (o : Option Ticket)
    → find_ticket id s.tickets ≡ o
    → IsExclusive s
    → IsExclusive (released id s o)
released-IsExclusive id s none h x = x
released-IsExclusive id s (some t) h x =
    if-cases IsExclusive t.returned (give_back id t s) s (λ r. give_back-IsExclusive id t s h x)
      (λ r. x)

begin-IsExclusive :
    (scope : String → String) (ended : Bool) (user_sid : String) (s : StoreScanCoordinator)
    → IsExclusive s
    → IsExclusive (begin_acquire scope ended user_sid s).1
unfolding begin_acquire
begin-IsExclusive scope ended user_sid s (e, d) =
    let key = scope user_sid in
    let P = λ (r : Acquired × StoreScanCoordinator). IsExclusive r.1 in
    if-cases P ended (context_ended, s) _ (λ h. (e, d))
      (λ h.
        if-cases P (contains key s.running) (already_running, s)
          (
            marked s.next_id,
            record {
              running = key ∷ s.running;
              tickets = record { id = s.next_id; key = key; returned = false } ∷ s.tickets;
              next_id = suc s.next_id;
            },
          )
          (λ c. (e, d)) (λ c. (ap (λ ks. key ∷ ks) e, (c, d))))

step-IsExclusive :
    (scope : String → String) (s t : StoreScanCoordinator)
    → Step scope s t
    → IsExclusive s
    → IsExclusive t
unfolding end_acquire release
step-IsExclusive scope s _ (begins ended user_sid) x = begin-IsExclusive scope ended user_sid s x
step-IsExclusive scope s _ (ends id ok) x =
    answered-IsExclusive id ok s (find_ticket id s.tickets) refl x
step-IsExclusive scope s _ (releases id) x =
    released-IsExclusive id s (find_ticket id s.tickets) refl x

-- However the callers' steps follow each other, the marked keys are those of the calls that have not
-- given theirs back, and no two of these calls have the same key.
pub Reachable-IsExclusive :
    (scope : String → String) (s : StoreScanCoordinator) → Reachable scope s → IsExclusive s
Reachable-IsExclusive scope _ start = (refl, tt)
Reachable-IsExclusive scope t (then_step {s} r step) =
    step-IsExclusive scope s t step (Reachable-IsExclusive scope s r)
