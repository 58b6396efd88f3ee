-- ===== src/Locks/Scan.antt =====
-- internal/updater/store_scan_coordinator.go: one Store scan of a user at a time. A step is one of the
-- sections that the code runs under its mutex. The key of a user, userScopeHash, is the argument
-- `scope`; the lock between processes is what it answers.
pub mod Marks
pub mod Exclusive
pub mod Refines
pub mod Guarded
use patch_board.Common.{
  ℕ, suc, String, Bool, true, false, not, Option, none, some, List, [], ◌∷◌, keep, map,
  if◌then◌else◌,
}
use patch_board.Common.{◌==◌ as num_eq}
use patch_board.Common.Text.{str_eq}
use patch_board.Common.Dict.{contains}

-- A call of acquire that has marked its key and not given it back: whether it has returned its release
-- function, which is after the lock between processes was got.
pub record Ticket : Type 0 where
  pub id : ℕ
  pub key : String
  pub returned : Bool

pub record StoreScanCoordinator : Type 0 where
  pub running : List String
  pub tickets : List Ticket
  pub next_id : ℕ

pub data Acquired : Type 0 where
  context_ended already_running : Acquired
  marked : ℕ → Acquired

-- The part of acquire up to its first unlock. `ended` is `ctx.Err() != nil`.
unfoldable pub begin_acquire :
    (String → String) → Bool → String → StoreScanCoordinator → Acquired × StoreScanCoordinator
unfolding contains
begin_acquire scope ended user_sid s =
    let key = scope user_sid in
    if ended then (context_ended, s) else if contains key s.running then (already_running, s) else (
      marked s.next_id,
      record {
        running = key ∷ s.running;
        tickets = record { id = s.next_id; key = key; returned = false } ∷ s.tickets;
        next_id = suc s.next_id;
      },
    )

unfoldable pub find_ticket : ℕ → List Ticket → Option Ticket
find_ticket id [] = none
find_ticket id (t ∷ tickets) =
    let rest = find_ticket id tickets in if num_eq t.id id then some t else rest

unfoldable pub without_ticket : ℕ → List Ticket → List Ticket
without_ticket id [] = []
without_ticket id (t ∷ tickets) =
    let rest = without_ticket id tickets in if num_eq t.id id then tickets else t ∷ rest

-- `delete(coordinator.running, key)`, for the ticket that is given back.
unfoldable pub give_back : ℕ → Ticket → StoreScanCoordinator → StoreScanCoordinator
unfolding keep without_ticket
give_back id t s = record s {
  running = keep (λ key. not (str_eq key t.key)) s.running;
  tickets = without_ticket id s.tickets;
}

unfoldable pub mark_returned : ℕ → List Ticket → List Ticket
mark_returned id [] = []
mark_returned id (t ∷ tickets) =
    let rest = mark_returned id tickets in
    if num_eq t.id id then record t { returned = true } ∷ tickets else t ∷ rest

abbrev process_answered : ℕ → Bool → StoreScanCoordinator → Option Ticket → StoreScanCoordinator
process_answered id ok s none = s
process_answered id ok s (some t) =
    if t.returned
    then s
    else if ok
    then record s { tickets = mark_returned id s.tickets }
    else give_back id t s

-- The rest of acquire, when the lock between processes was got or refused.
unfoldable pub end_acquire : ℕ → Bool → StoreScanCoordinator → StoreScanCoordinator
unfolding find_ticket mark_returned give_back
end_acquire id ok s = process_answered id ok s (find_ticket id s.tickets)

abbrev released : ℕ → StoreScanCoordinator → Option Ticket → StoreScanCoordinator
released id s none = s
released id s (some t) = if t.returned then give_back id t s else s

-- The release function, which does its work once: the ticket is gone after that.
unfoldable pub release : ℕ → StoreScanCoordinator → StoreScanCoordinator
unfolding find_ticket give_back
release id s = released id s (find_ticket id s.tickets)

abbrev pub keys_of : List Ticket → List String
keys_of tickets = map (λ (t : Ticket). t.key) tickets

abbrev pub new_store_scan_coordinator : StoreScanCoordinator
new_store_scan_coordinator = record { running = []; tickets = []; next_id = 0 }

-- A step of one of the callers, in any order.
pub data Step (scope : String → String) : StoreScanCoordinator → StoreScanCoordinator → Type 0 where
  begins :
      {s : StoreScanCoordinator} (ended : Bool) (user_sid : String)
      → Step scope s (begin_acquire scope ended user_sid s).1
  ends : {s : StoreScanCoordinator} (id : ℕ) (ok : Bool) → Step scope s (end_acquire id ok s)
  releases : {s : StoreScanCoordinator} (id : ℕ) → Step scope s (release id s)

pub data Reachable (scope : String → String) : StoreScanCoordinator → Type 0 where
  start : Reachable scope new_store_scan_coordinator
  then_step : {s t : StoreScanCoordinator} → Reachable scope s → Step scope s t → Reachable scope t
