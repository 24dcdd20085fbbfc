-- ===== src/Tests.antt =====
-- A runtime whose calls all succeed, and the data of the tests.
mod Sandboxes
mod Archives
mod Images
mod Catalogs
mod Configs
mod Backends
mod Locks
mod Store
mod Templates
use e2b_local.Prelude.{
  true, ℕ, suc, ◌+◌, ◌*◌, ◌<◌, String, ◌≡◌, ◌≢◌, refl, Option, none, some, List, [], ◌∷◌, arith,
}
use e2b_local.Prelude.Int.{pos}
use e2b_local.Errors.{ok, err, plain}
use e2b_local.Types.{Time, second, SandboxRuntimeInfo, SandboxRecord, running, add_seconds}
use e2b_local.Store.{new_sandbox_store, add_entry}
use e2b_local.Deadlines.{new_sandbox_deadline_manager}
use e2b_local.App.{App}
use e2b_local.Store.Invariant.{IsNamed}
use e2b_local.Runtime.{RuntimeCall, SandboxRuntime, SandboxRuntimeInspection, Surroundings}
use e2b_local.Requests.{NewSandbox, new_record}
use e2b_local.Requests.Coherence.{IsSound}

-- The state behind the runtime counts its calls.
abbrev pub info : SandboxRuntimeInfo
info = record {
  sandbox_id = "box";
  envd_url = "http://localhost:49983";
  container_id = "c1";
  container_name = "box";
  container_ip = "";
  host_port = "49983";
  machine_id = "";
  volume_mounts = [];
  published_ports = [];
}

abbrev pub willing : SandboxRuntime ℕ
willing = record {
  create_sandbox = λ req w. (ok info, suc w);
  delete_sandbox = λ i w. (ok tt, suc w);
  pause_sandbox = λ i w. (ok tt, suc w);
  resume_sandbox = λ i w. (ok i, suc w);
  inspector = none;
  metrics = none;
}

abbrev pub found : SandboxRuntimeInfo → RuntimeCall ℕ SandboxRuntimeInspection
found i w = (ok (record { info = i; state = "running"; exists = true }), suc w)

-- The same with an inspector, which finds every sandbox as it is recorded.
abbrev pub inspecting : SandboxRuntime ℕ
inspecting = record willing { inspector = some found }

-- The same as the last, but a deletion fails.
abbrev pub stubborn : SandboxRuntime ℕ
stubborn = record inspecting { delete_sandbox = λ i w. (err (plain "busy"), suc w) }

-- The clock goes on by a second at each reading, from a start that is given.
abbrev pub surroundings : SandboxRuntime ℕ → Time → Surroundings ℕ
surroundings runtime start = record {
  runtime = runtime;
  clock = λ n. start + n * second;
  random_id = λ n. some "box";
}

abbrev pub early : Surroundings ℕ
early = surroundings willing (1 * second)

pub early-IsSound : IsSound early
early-IsSound = record { started = λ n. omega arith; named = λ n. named }
  where
    named : IsNamed (some "box")
    named = refl

abbrev pub request : NewSandbox
request = record {
  template_id = "base";
  timeout = some (pos 60);
  auto_pause = none;
  auto_resume = none;
  metadata = [];
  env_vars = [];
  volume_mounts = [];
  allow_internet_access = none;
}

-- A running sandbox with a deadline at a given time.
abbrev pub box : Time → SandboxRecord
box end_at = new_record request "box" "base" (1 * second) end_at info

abbrev pub acting : String → SandboxRecord → SandboxRecord
acting action r = record r { on_timeout = action }

-- A gateway that holds this sandbox.
abbrev pub holding : SandboxRecord → App ℕ
holding r = record {
  store = add_entry r new_sandbox_store;
  deadlines = new_sandbox_deadline_manager;
  world = 0;
  ticks = 0;
}
