-- ===== src/Scanners/ActiveStatus/Consistency.antt =====
-- The states that the cell of an active scanner's status can reach.
use oott.Prelude.{false, ◌&&◌, ◌≡◌, refl, none, some, is_some, arith}
use oott.Scanners.ActiveStatus.{
  ActiveStatus, StatusCell, StatusCall, init_cell, running, waiting, scanned, call_cell,
}

-- The steps of the cell: it starts empty, and each call changes it.
pub data IsReachable : StatusCell → Type 0 where
  start : IsReachable none
  step :
      {cell cell' : StatusCell} (call : StatusCall)
      → IsReachable cell
      → cell' ≡ call_cell call cell
      → IsReachable cell'

-- A start of the scan is known exactly while it runs, no next scan while it runs, and the count of
-- the last scan exactly if its time is.
pub record IsConsistent (s : ActiveStatus) : Type 0 where
  pub started : is_some s.scan_started_at ≡ s.is_running
  pub next : (s.is_running && is_some s.next_scan_at) ≡ false
  pub counted : is_some s.last_scan_devices_seen ≡ is_some s.last_scan_at

abbrev pub IsConsistentCell : StatusCell → Type 0
IsConsistentCell none = Unit
IsConsistentCell (some s) = IsConsistent s

call_cell-IsConsistentCell :
    (call : StatusCall) (cell : StatusCell)
    → IsConsistentCell cell
    → IsConsistentCell (call_cell call cell)
unfolding call_cell
call_cell-IsConsistentCell init_cell none h = record { started = refl; next = refl; counted = refl }
call_cell-IsConsistentCell init_cell (some s) h = h
call_cell-IsConsistentCell (running at) none h = tt
call_cell-IsConsistentCell (waiting at) none h = tt
call_cell-IsConsistentCell (scanned at devices) none h = tt
call_cell-IsConsistentCell (running at) (some s) h = ground arith
call_cell-IsConsistentCell (waiting at) (some s) h = ground arith
call_cell-IsConsistentCell (scanned at devices) (some s) h = ground arith

-- In every state that calls of its methods can bring about, the status of an active scanner is
-- consistent: the start of a scan is known exactly while one runs, no next scan is announced while
-- one runs, and the number of devices of the last scan is known exactly if its time is.
pub reachable-IsConsistentCell : (cell : StatusCell) → IsReachable cell → IsConsistentCell cell
reachable-IsConsistentCell cell start = tt
reachable-IsConsistentCell cell (step {cell = before} call h e) =
    rw e (call_cell-IsConsistentCell call before (reachable-IsConsistentCell before h))
