-- ===== src/Locks/Witnesses.antt =====
-- Concrete inputs for the laws of the locks.
use patch_board.Common.{String, true, false, ◌≡◌, refl}
use patch_board.Locks.Scan.{
  Acquired, StoreScanCoordinator, begin_acquire, end_acquire, release, new_store_scan_coordinator,
  begins, ends, releases, start, then_step,
}
use patch_board.Locks.Scan.Guarded.{IsGuarded, Reachable-IsGuarded}
use patch_board.Locks.Scan.Refines.{gives, LockStep, event, Step-LockStep}
use patch_board.Locks.Scan.Refines.{held as locks_held}

abbrev scope : String → String
scope user_sid = user_sid

abbrev held : StoreScanCoordinator
held = end_acquire 0 true (begin_acquire scope false "S-1" new_store_scan_coordinator).1

abbrev refused_state : StoreScanCoordinator
refused_state = (begin_acquire scope false "S-1" held).1

refused_running : (begin_acquire scope false "S-1" held).0 ≡ Acquired.already_running
unfolding begin_acquire end_acquire
refused_running = refl

freed : (begin_acquire scope false "S-1" (release 0 (release 0 held))).0 ≡ Acquired.marked 1
unfolding begin_acquire end_acquire release
freed = refl

Reachable-IsGuarded_example : IsGuarded scope refused_state
Reachable-IsGuarded_example = Reachable-IsGuarded scope refused_state (
    then_step (then_step (then_step start (begins false "S-1")) (ends 0 true)) (begins false "S-1"))

releasing : event scope {s = held} {t = release 0 held} (releases 0) ≡ gives "S-1"
unfolding begin_acquire end_acquire patch_board.Locks.Scan.find_ticket
releasing = refl

Step-LockStep_example :
    LockStep
      (event scope {s = held} {t = release 0 held} (releases 0))
      (locks_held held)
      (locks_held (release 0 held))
Step-LockStep_example =
    Step-LockStep scope held (release 0 held)
      (then_step (then_step start (begins false "S-1")) (ends 0 true)) (releases 0)
