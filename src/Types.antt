-- ===== src/Types.antt =====
-- internal/gateway/types.go, runtime.go and the merge of runtime info in gateway_callbacks.go: the
-- sandbox record, and what the gateway decides from it alone. A `time.Time` is a number of
-- nanoseconds, and 0 is its zero value.
pub mod Merge
use e2b_local.Prelude.{
  ℕ, ◌+◌, ◌*◌, String, Bool, true, false, not, ◌&&◌, Option, none, some, List, [], ltb, nat_beq,
  if◌then◌else◌, ◌==◌, string_eq,
}
use e2b_local.Prelude.Dict.{Dict}
use e2b_local.Prelude.Int.{ℤ, pos, pos_part}

abbrev pub Time : Type 0
Time = ℕ

abbrev pub second : Time
second = 1_000_000_000

-- `Time.IsZero`.
abbrev pub is_zero_time : Time → Bool
is_zero_time t = nat_beq t 0

pub record VolumeMount : Type 0 where
  pub name : String
  pub path : String
  pub volume_id : String
  pub mount_path : String

pub record SandboxPortMapping : Type 0 where
  pub container_port : ℤ
  pub host_ip : String
  pub host_port : ℤ
  pub protocol : String

pub record SandboxRuntimeInfo : Type 0 where
  pub sandbox_id : String
  pub envd_url : String
  pub container_id : String
  pub container_name : String
  pub container_ip : String
  pub host_port : String
  pub machine_id : String
  pub volume_mounts : List VolumeMount
  pub published_ports : List SandboxPortMapping

-- `InternetAccessPolicy` and `SandboxTimeoutAction` are strings in the source, and the second may
-- hold any text until it is normalized.
abbrev pub InternetAccessPolicy : Type 0
InternetAccessPolicy = String

abbrev pub SandboxTimeoutAction : Type 0
SandboxTimeoutAction = String

pub record SandboxRecord : Type 0 where
  pub id : String
  pub template_id : String
  pub alias : String
  pub client_id : String
  pub envd_version : String
  pub metadata : Dict String String
  pub envd_url : String
  pub runtime_info : SandboxRuntimeInfo
  pub created_at : Time
  pub end_at : Time
  pub state : String
  pub cpu_count : ℤ
  pub disk_size_mb : ℤ
  pub memory_mb : ℤ
  pub internet_access_policy : InternetAccessPolicy
  pub on_timeout : SandboxTimeoutAction

-- The states that the API knows.
abbrev pub running : String
running = "running"

abbrev pub paused : String
paused = "paused"

abbrev pub internet_access_unspecified : InternetAccessPolicy
internet_access_unspecified = ""

abbrev pub internet_access_allowed : InternetAccessPolicy
internet_access_allowed = "allowed"

abbrev pub internet_access_denied : InternetAccessPolicy
internet_access_denied = "denied"

unfoldable pub internet_access_policy_from_bool_ptr : Option Bool → InternetAccessPolicy
internet_access_policy_from_bool_ptr none = internet_access_unspecified
internet_access_policy_from_bool_ptr (some true) = internet_access_allowed
internet_access_policy_from_bool_ptr (some false) = internet_access_denied

unfoldable pub bool_ptr : InternetAccessPolicy → Option Bool
bool_ptr policy =
    if policy == internet_access_allowed
    then some true
    else if policy == internet_access_denied
    then some false
    else none

abbrev pub timeout_action_unspecified : SandboxTimeoutAction
timeout_action_unspecified = ""

abbrev pub timeout_action_kill : SandboxTimeoutAction
timeout_action_kill = "kill"

abbrev pub timeout_action_pause : SandboxTimeoutAction
timeout_action_pause = "pause"

unfoldable pub timeout_action_from_auto_pause : Option Bool → SandboxTimeoutAction
timeout_action_from_auto_pause none = timeout_action_kill
timeout_action_from_auto_pause (some b) = if b then timeout_action_pause else timeout_action_kill

-- `none` is the error for an action that is not known.
unfoldable pub normalize : SandboxTimeoutAction → Option SandboxTimeoutAction
normalize action =
    if action == timeout_action_unspecified
    then some timeout_action_kill
    else if action == timeout_action_kill
    then some timeout_action_kill
    else if action == timeout_action_pause
    then some timeout_action_pause
    else none

abbrev is_pause : Option SandboxTimeoutAction → Bool
is_pause none = false
is_pause (some a) = a == timeout_action_pause

unfoldable pub retains_sandbox_after_timeout : SandboxTimeoutAction → Bool
unfolding normalize
retains_sandbox_after_timeout action = is_pause (normalize action)

abbrev pub default_sandbox_timeout_seconds : ℕ
default_sandbox_timeout_seconds = 15

-- `requestTimeout`.
unfoldable pub request_timeout : Option ℤ → ℤ
request_timeout none = pos default_sandbox_timeout_seconds
request_timeout (some t) = t

unfoldable pub default_sandbox_end_at : Time → Time
default_sandbox_end_at start = start + default_sandbox_timeout_seconds * second

-- `start.Add(time.Duration(timeout) * time.Second)`, where the handler has refused a negative
-- timeout.
unfoldable pub add_seconds : Time → ℤ → Time
add_seconds start t = start + pos_part t * second

unfoldable pub record_end_at : SandboxRecord → Time
unfolding default_sandbox_end_at
record_end_at r =
    if not (is_zero_time r.end_at) then r.end_at else default_sandbox_end_at r.created_at

unfoldable pub sandbox_record_expired : SandboxRecord → Time → Bool
unfolding record_end_at
sandbox_record_expired r now =
    if not (r.state == running)
    then false
    else not (is_zero_time (record_end_at r)) && not (ltb now (record_end_at r))

unfoldable pub sandbox_record_terminally_expired : SandboxRecord → Time → Bool
unfolding sandbox_record_expired retains_sandbox_after_timeout
sandbox_record_terminally_expired r now =
    sandbox_record_expired r now && not (retains_sandbox_after_timeout r.on_timeout)

abbrev pub default_envd_version : String
default_envd_version = "99.99.99"
