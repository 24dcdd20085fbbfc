-- ===== src/Requests.antt =====
-- internal/gateway/gateway_callbacks.go: the sandbox handlers that the API calls.
pub mod Coherence
pub mod Creation
pub mod Laws
use e2b_local.Prelude.{
  ℕ, suc, ◌+◌, String, Bool, true, false, not, Option, none, some, List, [], ◌∷◌, ltb, ◌==◌,
  string_eq, if◌then◌else◌, trim_space,
}
use e2b_local.Prelude.Dict.{Dict}
use e2b_local.Prelude.Int.{ℤ, pos, negsuc, is_negative, pos_part}
use e2b_local.Errors.{
  Error, Result, ok, err, bad_request, not_found, conflict, service_unavailable, gateway,
  runtime_capacity, plain,
}
use e2b_local.Types.{
  Time, SandboxRecord, SandboxRuntimeInfo, running, paused, request_timeout, add_seconds,
  timeout_action_from_auto_pause, internet_access_policy_from_bool_ptr,
  default_sandbox_timeout_seconds,
}
use e2b_local.Mounts.{SandboxVolumeMount, sandbox_volume_mounts}
use e2b_local.Store
use e2b_local.Runtime.{SandboxRuntimeCreateRequest, Surroundings}
use e2b_local.App.{
  App, Action, pure, raise, ◌>>=◌, ◌>>◌, attempt, branch, on_option, on_result, gets, in_store,
  in_runtime, time_now, create_record, sync_sandbox_deadline,
}
use e2b_local.Lifecycle.{
  required, SandboxDeleteResult, delete_sandbox, pause_sandbox_locked, active_sandbox_record_locked,
  active_sandbox_record, under_lock,
}

-- The fields of `e2bapi.NewSandbox` that the handler reads.
pub record NewSandbox : Type 0 where
  pub template_id : String
  pub timeout : Option ℤ
  pub auto_pause : Option Bool
  pub auto_resume : Option Bool
  pub metadata : Dict String String
  pub env_vars : Dict String String
  pub volume_mounts : List SandboxVolumeMount
  pub allow_internet_access : Option Bool

abbrev pub is_negative_ptr : Option ℤ → Bool
is_negative_ptr none = false
is_negative_ptr (some t) = is_negative t

abbrev pub is_true_ptr : Option Bool → Bool
is_true_ptr none = false
is_true_ptr (some b) = b

-- `errors.Is(err, ErrRuntimeCapacity)`.
abbrev pub create_error : Error → Error
create_error (gateway status) = gateway status
create_error runtime_capacity = service_unavailable
create_error (plain message) = plain message

abbrev pub exceeds_hour : ℤ → Bool
exceeds_hour (pos n) = ltb 3600 n
exceeds_hour (negsuc n) = false

abbrev pub later : Time → Time → Time
later a b = if ltb b a then a else b

abbrev pub new_record :
    NewSandbox → String → String → Time → Time → SandboxRuntimeInfo → SandboxRecord
new_record req id template_id now end_at info = record {
  id = id;
  template_id = template_id;
  alias = "";
  client_id = "";
  envd_version = "";
  metadata = req.metadata;
  envd_url = info.envd_url;
  runtime_info = info;
  created_at = now;
  end_at = end_at;
  state = running;
  cpu_count = pos 0;
  disk_size_mb = pos 0;
  memory_mb = pos 0;
  internet_access_policy = internet_access_policy_from_bool_ptr req.allow_internet_access;
  on_timeout = timeout_action_from_auto_pause req.auto_pause;
}

abbrev pub create_request : NewSandbox → String → String → Time → Time → SandboxRuntimeCreateRequest
create_request req id template_id now end_at = record {
  sandbox_id = id;
  template_id = template_id;
  metadata = req.metadata;
  env_vars = req.env_vars;
  volume_mounts = sandbox_volume_mounts req.volume_mounts;
  created_at = now;
  end_at = end_at;
  allow_internet_access = req.allow_internet_access;
  on_timeout = timeout_action_from_auto_pause req.auto_pause;
}

module _ {W : Type 0} (env : Surroundings W) where
  -- `newSandboxID`.
  unfoldable pub new_sandbox_id : Action W String
  new_sandbox_id s = elim (env.random_id s.ticks) [
    | none ↦ raise (plain "generate sandbox id") s
    | some id ↦ pure id (record s { ticks = suc s.ticks })
  ]

  -- Puts the new sandbox into the store; if that fails, the runtime's sandbox is deleted again.
  unfoldable pub register : SandboxRecord → Action W SandboxRecord
  register r = do
    created ← attempt (create_record env r)
    on_result created
        (λ e. do attempt (in_runtime (env.runtime.delete_sandbox r.runtime_info)); raise e) pure

  unfoldable pub create_valid : NewSandbox → String → Action W SandboxRecord
  create_valid req template_id = do
    id ← new_sandbox_id
    now ← time_now env
    let end_at = add_seconds now (request_timeout req.timeout)
    created ←
        attempt
          (in_runtime (env.runtime.create_sandbox (create_request req id template_id now end_at)))
    on_result created (λ e. raise (create_error e))
        (λ info. register (new_record req id template_id now end_at info))

  -- `defaultCreateSandbox` up to `Store.Create`: the record is stored, and has no timer.
  unfoldable pub create_unsynced : NewSandbox → Action W SandboxRecord
  create_unsynced req = branch (trim_space req.template_id == "") (raise bad_request) (
      branch (is_negative_ptr req.timeout) (raise bad_request) (
        branch (is_true_ptr req.auto_resume) (raise bad_request)
          (create_valid req (trim_space req.template_id))))

  -- No lock is held here: another handler may come between the two parts.
  unfoldable pub default_create_sandbox : NewSandbox → Action W SandboxRecord
  default_create_sandbox req = do r ← create_unsynced req; sync_sandbox_deadline r; pure r

  unfoldable pub default_get_sandbox : String → Action W SandboxRecord
  default_get_sandbox id = active_sandbox_record env id

  unfoldable pub default_kill_sandbox : String → Action W (Unit {0})
  default_kill_sandbox id = under_lock env id do
    r ← active_sandbox_record_locked env id
    result ← delete_sandbox env r required
    branch result.deleted (pure tt) (raise not_found)

  unfoldable pub default_pause_sandbox : String → Action W SandboxRecord
  default_pause_sandbox id = under_lock env id do
    r ← active_sandbox_record_locked env id
    branch (r.state == running)
        (do updated ← pause_sandbox_locked env r; on_option updated (raise not_found) pure)
        (raise conflict)

  -- What a setter returned: 404 if the record is gone, and else its timer follows it.
  unfoldable pub finish_update : Option SandboxRecord → Action W SandboxRecord
  finish_update updated =
      on_option updated (raise not_found) (λ u. do sync_sandbox_deadline u; pure u)

  unfoldable pub resume_paused : String → Option ℤ → SandboxRecord → Action W SandboxRecord
  resume_paused id timeout r = do
    info ← in_runtime (env.runtime.resume_sandbox r.runtime_info)
    now ← time_now env
    let end_at = add_seconds now (request_timeout timeout)
    updated ← in_store (Store.set_state_runtime_info_and_end_at id running info end_at)
    finish_update updated

  unfoldable pub default_resume_sandbox : String → Option ℤ → Action W SandboxRecord
  default_resume_sandbox id timeout = branch (is_negative_ptr timeout) (raise bad_request) (
      under_lock env id do
        r ← active_sandbox_record_locked env id
        branch (r.state == paused) (resume_paused id timeout r) (raise conflict))

  unfoldable pub connect_paused : String → ℤ → SandboxRecord → Action W SandboxRecord
  connect_paused id timeout r = do
    info ← in_runtime (env.runtime.resume_sandbox r.runtime_info)
    now ← time_now env
    let end_at = later r.end_at (add_seconds now timeout)
    updated ← in_store (Store.set_state_runtime_info_and_end_at id running info end_at)
    finish_update updated

  unfoldable pub extend_to : String → ℤ → Action W SandboxRecord
  extend_to id timeout = do
    now ← time_now env
    updated ← in_store (Store.extend_end_at id (add_seconds now timeout))
    finish_update updated

  unfoldable pub default_connect_sandbox : String → ℤ → Action W (SandboxRecord × Bool)
  default_connect_sandbox id timeout = branch (is_negative timeout) (raise bad_request) (
      under_lock env id do
        r ← active_sandbox_record_locked env id
        branch (r.state == paused) (do u ← connect_paused id timeout r; pure (u, true))
            (do u ← extend_to id timeout; pure (u, false)))

  unfoldable pub set_timeout_to : String → ℤ → Action W SandboxRecord
  set_timeout_to id timeout = do
    now ← time_now env
    updated ← in_store (Store.set_end_at id (add_seconds now timeout))
    finish_update updated

  unfoldable pub default_set_sandbox_timeout : String → ℤ → Action W (Unit {0})
  default_set_sandbox_timeout id timeout =
      branch (is_negative timeout) (raise bad_request) (
        under_lock env id
          do active_sandbox_record_locked env id; set_timeout_to id timeout; pure tt)

  unfoldable pub default_refresh_sandbox : String → Option ℤ → Action W (Unit {0})
  default_refresh_sandbox id duration =
      let seconds = request_timeout duration in
      branch (is_negative seconds) (raise bad_request) (
        branch (exceeds_hour seconds) (raise bad_request)
          (under_lock env id do active_sandbox_record_locked env id; extend_to id seconds; pure tt))
