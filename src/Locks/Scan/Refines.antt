-- ===== src/Locks/Scan/Refines.antt =====
-- internal/updater/store_scan_coordinator.go implements one lock for each key.
use text.Mathlib.TextEquality.{eq_iff}
use patch_board.Common.{
  ℕ, String, Bool, true, false, not, ◌&&◌, ◌||◌, Option, none, some, List, [], ◌∷◌, ◌≡◌, refl,
  arith, Bool-cases, inl, inr, if◌then◌else◌,
}
use patch_board.Common.Text.{str_eq}
use patch_board.Common.Dict.{contains}
use patch_board.Locks.Scan.{
  Ticket, StoreScanCoordinator, begin_acquire, find_ticket, give_back, end_acquire,
  process_answered, release, released, Step, begins, ends, releases, Reachable,
}
use patch_board.Locks.Scan.Marks.{others, others-skip, others-keep, others-nil}
use patch_board.Locks.Scan.Exclusive.{IsExclusive, Reachable-IsExclusive, found-contains}

-- What is asked of the abstract locks.
pub data LockEvent : Type 0 where
  idle : LockEvent
  takes gives : String → LockEvent

-- The abstract state says which locks are held. Only a free lock is taken, only a held one is given
-- back, and all other locks stay as they are.
abbrev pub LockStep : LockEvent → (String → Bool) → (String → Bool) → Type 0
LockStep idle before after = (k : String) → after k ≡ before k
LockStep (takes key) before after =
    (before key ≡ false) × ((k : String) → after k ≡ (str_eq key k || before k))
LockStep (gives key) before after =
    (before key ≡ true) × ((k : String) → after k ≡ (not (str_eq k key) && before k))

-- The locks that the coordinator holds.
abbrev pub held : StoreScanCoordinator → String → Bool
held s key = contains key s.running

pub contains-others :
    (key k : String) (ks : List String)
    → contains k (others key ks) ≡ (not (str_eq k key) && contains k ks)
unfolding contains
contains-others key k [] = rw (others-nil key) (ground arith)
contains-others key k (j ∷ ks) = elim (Bool-cases (str_eq j key)) [
  | inl t ↦
      rw (others-skip key j ks t, contains-others key k ks)
        (ground (arith, eq_iff j key, eq_iff j k, eq_iff k key))
  | inr f ↦
      rw (others-keep key j ks f, contains-others key k ks)
        (ground (arith, eq_iff j key, eq_iff j k, eq_iff k key))
]

abbrev given_by : Bool → Option Ticket → LockEvent
given_by returned none = idle
given_by returned (some t) =
    if (if returned then t.returned else not t.returned) then gives t.key else idle

-- A call takes its key when its context has not ended and the key is free. It gives the key back when
-- the lock between processes is refused, or when it has returned and is released.
abbrev pub event :
    (scope : String → String) {s t : StoreScanCoordinator} → Step scope s t → LockEvent
event scope {s} (begins ended user_sid) =
    if ended || held s (scope user_sid) then idle else takes (scope user_sid)
event scope {s} (ends id ok) = if ok then idle else given_by false (find_ticket id s.tickets)
event scope {s} (releases id) = given_by true (find_ticket id s.tickets)

give_back-gives :
    (id : ℕ) (t : Ticket) (s : StoreScanCoordinator)
    → find_ticket id s.tickets ≡ some t
    → IsExclusive s
    → LockStep (gives t.key) (held s) (held (give_back id t s))
unfolding give_back others
give_back-gives id t s found (e, d) =
    (rw (e) (found-contains id s.tickets t found), λ k. contains-others t.key k s.running)

answered-LockStep :
    (id : ℕ) (ok : Bool) (s : StoreScanCoordinator) (o : Option Ticket)
    → find_ticket id s.tickets ≡ o
    → IsExclusive s
    → LockStep (if ok then idle else given_by false o) (held s) (held (process_answered id ok s o))
unfolding give_back
answered-LockStep id true s none found x = λ k. refl
answered-LockStep id false s none found x = λ k. refl
answered-LockStep id true s (some t) found x = elim (Bool-cases t.returned) [
  | inl e ↦ rw (e) (λ k. refl)
  | inr e ↦ rw (e) (λ k. refl)
]
answered-LockStep id false s (some t) found x = elim (Bool-cases t.returned) [
  | inl e ↦ rw (e) (λ k. refl)
  | inr e ↦ rw (e) (give_back-gives id t s found x)
]

released-LockStep :
    (id : ℕ) (s : StoreScanCoordinator) (o : Option Ticket)
    → find_ticket id s.tickets ≡ o
    → IsExclusive s
    → LockStep (given_by true o) (held s) (held (released id s o))
unfolding give_back
released-LockStep id s none found x = λ k. refl
released-LockStep id s (some t) found x = elim (Bool-cases t.returned) [
  | inl e ↦ rw (e) (give_back-gives id t s found x)
  | inr e ↦ rw (e) (λ k. refl)
]

begin-LockStep :
    (scope : String → String) (ended : Bool) (user_sid : String) (s : StoreScanCoordinator)
    → LockStep
        (if ended || held s (scope user_sid) then idle else takes (scope user_sid))
        (held s)
        (held (begin_acquire scope ended user_sid s).1)
unfolding begin_acquire contains
begin-LockStep scope true user_sid s = λ k. refl
begin-LockStep scope false user_sid s = elim (Bool-cases (contains (scope user_sid) s.running)) [
  | inl e ↦ rw (e) (λ k. refl)
  | inr e ↦ rw (e) (e, λ k. refl)
]

-- In every state that the callers reach, each step of theirs is the event of the abstract locks that
-- the call asks for: a call takes its free key, a call that is refused the lock between processes or
-- is released gives its key back, and all other steps leave the locks alone.
pub Step-LockStep :
    (scope : String → String) (s t : StoreScanCoordinator)
    → Reachable scope s
    → (step : Step scope s t) → LockStep (event scope step) (held s) (held t)
unfolding end_acquire release
Step-LockStep scope s _ r (begins ended user_sid) = begin-LockStep scope ended user_sid s
Step-LockStep scope s _ r (ends id ok) =
    answered-LockStep id ok s (find_ticket id s.tickets) refl (Reachable-IsExclusive scope s r)
Step-LockStep scope s _ r (releases id) =
    released-LockStep id s (find_ticket id s.tickets) refl (Reachable-IsExclusive scope s r)
