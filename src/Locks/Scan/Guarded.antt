-- ===== src/Locks/Scan/Guarded.antt =====
-- What the callers of internal/updater/store_scan_coordinator.go see: who is turned away, and when a
-- user can be scanned again.
use text.Mathlib.TextPositions.{eq_refl}
use patch_board.Common.{ℕ, String, true, false, some, List, ◌≡◌, refl, ◌∙◌, arith}
use patch_board.Common.Dict.{contains}
use patch_board.Locks.Scan.{
  Ticket, StoreScanCoordinator, already_running, marked, begin_acquire, find_ticket, give_back,
  end_acquire, release, Reachable,
}
use patch_board.Locks.Scan.Marks.{others}
use patch_board.Locks.Scan.Exclusive.{IsExclusive, Reachable-IsExclusive, found-contains}
use patch_board.Locks.Scan.Refines.{contains-others}

-- The marked keys are those of the tickets, none of them twice. A user whose key has a ticket is turned
-- away; after the ticket's call has failed or was released, the user is let in again.
pub record IsGuarded (scope : String → String) (s : StoreScanCoordinator) : Type 0 where
  pub exclusive : IsExclusive s
  pub turned_away :
      (id : ℕ) (t : Ticket) (user_sid : String)
      → find_ticket id s.tickets ≡ some t
      → scope user_sid ≡ t.key
      → (begin_acquire scope false user_sid s).0 ≡ already_running
  pub after_failure :
      (id : ℕ) (t : Ticket) (user_sid : String)
      → find_ticket id s.tickets ≡ some t
      → scope user_sid ≡ t.key
      → t.returned ≡ false
      → (begin_acquire scope false user_sid (end_acquire id false s)).0 ≡ marked s.next_id
  pub after_release :
      (id : ℕ) (t : Ticket) (user_sid : String)
      → find_ticket id s.tickets ≡ some t
      → scope user_sid ≡ t.key
      → t.returned ≡ true
      → (begin_acquire scope false user_sid (release id s)).0 ≡ marked s.next_id

module _ (scope : String → String) where
  begin-refused :
      (user_sid : String) (s : StoreScanCoordinator)
      → contains (scope user_sid) s.running ≡ true
      → (begin_acquire scope false user_sid s).0 ≡ already_running
  unfolding begin_acquire
  begin-refused user_sid s h = rw (h) refl

  begin-marked :
      (user_sid : String) (s : StoreScanCoordinator)
      → contains (scope user_sid) s.running ≡ false
      → (begin_acquire scope false user_sid s).0 ≡ marked s.next_id
  unfolding begin_acquire
  begin-marked user_sid s h = rw (h) refl

  freed : (key : String) (ks : List String) → contains key (others key ks) ≡ false
  freed key ks = contains-others key key ks ∙ ground (arith, eq_refl key)

  begin-given_back :
      (id : ℕ) (t : Ticket) (user_sid : String) (s : StoreScanCoordinator)
      → scope user_sid ≡ t.key
      → (begin_acquire scope false user_sid (give_back id t s)).0 ≡ marked s.next_id
  unfolding give_back others
  begin-given_back id t user_sid s e =
      begin-marked user_sid (give_back id t s) (rw (e) (freed t.key s.running))

  -- In every state that the callers reach, the marked keys are those of the calls that have not given
  -- theirs back, and no key is marked twice. A scan of a user whose key is marked is turned away. After
  -- the marking call was refused the lock between processes, or has returned and was released, a scan
  -- of the user gets the key at once.
  pub Reachable-IsGuarded : (s : StoreScanCoordinator) → Reachable scope s → IsGuarded scope s
  unfolding end_acquire release
  Reachable-IsGuarded s r =
      let x = Reachable-IsExclusive scope s r in
      record {
        exclusive = x;
        turned_away = λ id t user_sid found e.
            begin-refused user_sid s (rw (e, x.0) (found-contains id s.tickets t found));
        after_failure =
            λ id t user_sid found e waits. rw (found, waits) (begin-given_back id t user_sid s e);
        after_release =
            λ id t user_sid found e holds. rw (found, holds) (begin-given_back id t user_sid s e);
      }
