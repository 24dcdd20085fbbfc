-- ===== src/Tests/Locks.antt =====
-- The theorems on the locks of sandboxes, where one goroutine holds a sandbox and another wants it.
use e2b_local.Prelude.{ℕ, ◌*◌, String, ◌≡◌, refl, none, some, ◌⊎◌, true}
use e2b_local.Types.{second, normalize, timeout_action_from_auto_pause}
use e2b_local.Prelude.Dict.{lookup, insert}
use e2b_local.Store.{new_sandbox_store, create, lock_sandbox, prepare}
use e2b_local.Store.Locking.{
  System, Shared, Pc, idle, seeking, waiting, checking, holding, asks, finds, locks, returns,
  creates, moves, Reach, start, later, new_system, with_store, lock, put, address_of,
  is_current_entry,
}
use e2b_local.Store.Locking.Safety.{holding_once}
use e2b_local.Store.Locking.Progress.{CanMove, Reach-CanMove}
use e2b_local.Store.Locking.Refinement.{Spec, SpecReach, Refines, Reach-Refines}
use e2b_local.Tests.{box}

abbrev next : ℕ → Shared → Pc → System → System
next i m p s = record { shared = m; pc = put s.pc i p }

-- The goroutine 0 has created a sandbox, and 1 asks for it.
abbrev filled : Shared
filled =
    with_store (create none (1 * second) (box (9 * second)) new_system.shared.store).1
      new_system.shared

abbrev asked : System
asked = next 1 filled (seeking "box") (next 0 filled idle new_system)

asked-Reach : Reach asked
asked-Reach =
    later 1 (later 0 start (moves (creates none (1 * second) (box (9 * second))))) (moves asks)

at_zero : address_of "box" filled.store ≡ some 0
unfolding address_of lock_sandbox create prepare normalize timeout_action_from_auto_pause lookup
    new_sandbox_store insert
at_zero = refl

-- 1 holds the sandbox.
abbrev held : System
held =
    next 1 (lock 1 0 filled) (holding "box" 0)
      (next 1 (lock 1 0 filled) (checking "box" 0) (next 1 filled (waiting "box" 0) asked))

still_current : is_current_entry "box" 0 filled.store ≡ true
unfolding is_current_entry
still_current = rw at_zero refl

held-Reach : Reach held
held-Reach =
    later 1 (later 1 (later 1 asked-Reach (moves (finds at_zero))) (moves (locks refl)))
      (moves (returns still_current))

abbrev first : ℕ
first = 1

holding_once_example : first ≡ 1
holding_once_example = holding_once held "box" first 1 0 0 held-Reach refl refl

-- 2 waits for it.
abbrev contended : System
contended =
    next 2 (lock 1 0 filled) (waiting "box" 0) (next 2 (lock 1 0 filled) (seeking "box") held)

contended-Reach : Reach contended
contended-Reach = later 2 (later 2 held-Reach (moves asks)) (moves (finds at_zero))

Reach-CanMove_example :
    CanMove 2 contended
    ⊎ ((id : String) × (a : ℕ) × (j : ℕ) × (contended.pc 2 ≡ waiting id a)
        × (contended.shared.owner a ≡ some j)
        × CanMove j contended)
Reach-CanMove_example = Reach-CanMove contended 2 contended-Reach

Reach-Refines_example : (a : Spec) × SpecReach a × Refines a contended
Reach-Refines_example = Reach-Refines contended contended-Reach
