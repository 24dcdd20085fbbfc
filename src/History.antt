-- ===== src/History.antt =====
-- Any history of the gateway after its start, as one sequence of steps: the handlers of the
-- sandbox requests, the two parts of each creation, timers that fire, the callbacks that they run,
-- and the shutdown. What a handler does under the lifecycle lock of a sandbox is one step; a kill of
-- all sandboxes, a listing and a request for several metrics take the lock of one sandbox after the
-- other, so each sandbox is a step of its own (`about` and `reconciles`). A creation holds no lock:
-- any steps may come between its `Store.Create` (`creates`) and its `syncSandboxDeadline` (`ends`).
-- That call changes nothing but the timer, which a handler does not read and changes at last, so in
-- the middle of a handler it does the same as before it.
pub mod Coherence
pub mod Expired
use e2b_local.Prelude.{ℕ, zero, suc, String, Bool, Option, none, some, List, [], ◌∷◌}
use e2b_local.Prelude.Int.{ℤ}
use e2b_local.Errors.{Result, ok, err}
use e2b_local.Types.{SandboxRecord}
use e2b_local.Store.{new_sandbox_store, get as get_stored}
use e2b_local.Deadlines.{Callback, begin_shutdown, fire, enter, new_sandbox_deadline_manager}
use e2b_local.Runtime.{Surroundings, MetricsRequest}
use e2b_local.App.{App, Action, pure, ◌>>=◌, sync_sandbox_deadline}
use e2b_local.Lifecycle.{reconcile_sandbox_record}
use e2b_local.Requests.{
  NewSandbox, create_unsynced, default_get_sandbox, default_kill_sandbox, default_pause_sandbox,
  default_resume_sandbox, default_connect_sandbox, default_set_sandbox_timeout,
  default_refresh_sandbox,
}
use e2b_local.Metrics.{default_get_sandbox_metrics}
use e2b_local.Expiry.{expire_sandbox}

-- A request about one sandbox.
pub data Request : Type 0 where
  get kill pause : Request
  resume refresh : Option ℤ → Request
  connect set_timeout : ℤ → Request
  measure : MetricsRequest → Request

pub data Event : Type 0 where
  creates : NewSandbox → Event
  ends : ℕ → Event
  about : String → Request → Event
  reconciles : SandboxRecord → Event
  fires : String → Event
  enters : Callback → List Callback → Event
  expires : Callback → Event
  shutdown : Event

-- The gateway, the creations between their two parts, and, for the theorems, the ids of those
-- sandboxes that were deleted before the second part.
pub record Gateway (W : Type 0) : Type 0 where
  pub app : App W
  pub creating : List SandboxRecord
  pub late : List String

unfoldable pub take_nth : ℕ → List SandboxRecord → Option (SandboxRecord × List SandboxRecord)
take_nth n [] = none
take_nth zero (q ∷ qs) = some (q, qs)
take_nth (suc n) (q ∷ qs) = elim (take_nth n qs) [
  | none ↦ none
  | some (r, rest) ↦ some (r, q ∷ rest)
]

-- The answer's content is dropped: success or the error is left.
abbrev pub done : {W A : Type 0} → Action W A → Action W (Unit {0})
done m = m >>= λ _. pure tt

abbrev pub begin : {W : Type 0} → Result SandboxRecord × App W → Gateway W → Gateway W
begin (ok q, t) g = record g { app = t; creating = q ∷ g.creating }
begin (err e, t) g = record g { app = t }

abbrev pub finish :
    {W : Type 0} → Option (SandboxRecord × List SandboxRecord) → Gateway W → Gateway W
finish none g = g
finish (some (r, rest)) g = record {
  app = (sync_sandbox_deadline r g.app).1;
  creating = rest;
  late = elim (get_stored r.id g.app.store) [ none ↦ r.id ∷ g.late | some _ ↦ g.late ];
}

module _ {W : Type 0} (env : Surroundings W) where
  unfoldable pub serve : String → Request → Action W (Unit {0})
  serve id get = done (default_get_sandbox env id)
  serve id kill = default_kill_sandbox env id
  serve id pause = done (default_pause_sandbox env id)
  serve id (resume timeout) = done (default_resume_sandbox env id timeout)
  serve id (refresh duration) = default_refresh_sandbox env id duration
  serve id (connect timeout) = done (default_connect_sandbox env id timeout)
  serve id (set_timeout timeout) = default_set_sandbox_timeout env id timeout
  serve id (measure req) = done (default_get_sandbox_metrics env id req)

  unfoldable pub step_app : Event → App W → App W
  step_app (creates req) s = s
  step_app (ends n) s = s
  step_app (about id req) s = (serve id req s).1
  step_app (reconciles r) s = (reconcile_sandbox_record env r s).1
  step_app (fires id) s = record s { deadlines = fire id s.deadlines }
  step_app (enters callback others) s = record s { deadlines = enter callback others s.deadlines }
  step_app (expires callback) s =
      (expire_sandbox env callback.sandbox_id callback.expected_end_at s).1
  step_app shutdown s = record s { deadlines = begin_shutdown s.deadlines }

  unfoldable pub step : Event → Gateway W → Gateway W
  step (creates req) g = begin (create_unsynced env req g.app) g
  step (ends n) g = finish (take_nth n g.creating) g
  step (about id req) g = record g { app = step_app (about id req) g.app }
  step (reconciles r) g = record g { app = step_app (reconciles r) g.app }
  step (fires id) g = record g { app = step_app (fires id) g.app }
  step (enters callback others) g = record g { app = step_app (enters callback others) g.app }
  step (expires callback) g = record g { app = step_app (expires callback) g.app }
  step shutdown g = record g { app = step_app shutdown g.app }

  unfoldable pub run : List Event → Gateway W → Gateway W
  run [] g = g
  run (e ∷ es) g = run es (step e g)

-- A gateway that has just started with an empty store.
unfoldable pub new_app : {W : Type 0} → W → App W
new_app world = record {
  store = new_sandbox_store;
  deadlines = new_sandbox_deadline_manager;
  world = world;
  ticks = 0;
}

unfoldable pub new_gateway : {W : Type 0} → W → Gateway W
unfolding new_app
new_gateway world = record { app = new_app world; creating = []; late = [] }
