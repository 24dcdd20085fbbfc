-- ===== src/Deadlines.antt =====
-- internal/gateway/sandbox_deadlines.go: `sandboxDeadlineManager`. The closure that a timer runs is
-- always `expireSandbox(id, expectedEndAt)`, so a timer holds those two values. A Go timer is armed
-- until it fires or is stopped; the table keeps the entry of a timer that has fired.
pub mod Laws
use e2b_local.Prelude.{
  String, Bool, true, false, Option, none, some, List, [], ◌∷◌, nat_beq, if◌then◌else◌, string_eq,
}
use e2b_local.Prelude.Dict.{Dict, lookup, insert, delete}
use e2b_local.Types.{Time}

pub record Callback : Type 0 where
  pub sandbox_id : String
  pub expected_end_at : Time

pub record SandboxDeadline : Type 0 where
  pub fire_at : Time
  pub callback : Callback
  pub armed : Bool

-- `launched` are the timer goroutines that have not yet passed the test of `stopped`, and `active`
-- those that have: they are what the wait group counts.
pub record DeadlineManager : Type 0 where
  pub timers : Dict String SandboxDeadline
  pub stopped : Bool
  pub launched : List Callback
  pub active : List Callback

unfoldable pub new_sandbox_deadline_manager : DeadlineManager
new_sandbox_deadline_manager = record { timers = []; stopped = false; launched = []; active = [] }

abbrev pub deadline : Time → Callback → SandboxDeadline
deadline fire_at callback = record { fire_at = fire_at; callback = callback; armed = true }

-- Replacing the entry also stops the old timer: a stopped timer is in no table and never fires.
abbrev set_timer : String → Time → Callback → DeadlineManager → DeadlineManager
set_timer id fire_at callback m = record m {
  timers = insert id (deadline fire_at callback) m.timers;
}

abbrev replace_timer :
    String → Time → Callback → Option SandboxDeadline → DeadlineManager → DeadlineManager
replace_timer id fire_at callback none m = set_timer id fire_at callback m
replace_timer id fire_at callback (some d) m =
    if nat_beq d.fire_at fire_at then m else set_timer id fire_at callback m

unfoldable pub schedule : String → Time → Callback → DeadlineManager → DeadlineManager
schedule id fire_at callback m =
    if m.stopped then m else replace_timer id fire_at callback (lookup id m.timers) m

unfoldable pub cancel : String → DeadlineManager → DeadlineManager
cancel id m = elim (lookup id m.timers) [
  | none ↦ m
  | some _ ↦ record m { timers = delete id m.timers }
]

-- `shutdown` up to the wait: later it only waits for `active` to become empty.
unfoldable pub begin_shutdown : DeadlineManager → DeadlineManager
begin_shutdown m = if m.stopped then m else record m { stopped = true; timers = [] }

-- The Go runtime starts the goroutine of an armed timer.
unfoldable pub fire : String → DeadlineManager → DeadlineManager
fire id m = elim (lookup id m.timers) [
  | none ↦ m
  | some d ↦
      if d.armed
      then record m {
        timers = insert id (record d { armed = false }) m.timers;
        launched = d.callback ∷ m.launched;
      }
      else m
]

-- The goroutine takes the manager's lock: it gives up after a shutdown, and else counts itself.
unfoldable pub enter : Callback → List Callback → DeadlineManager → DeadlineManager
enter callback others m =
    if m.stopped
    then record m { launched = others }
    else record m { launched = others; active = callback ∷ m.active }
