-- ===== src/Runtime.antt =====
-- internal/gateway/runtime.go, gateway_callbacks.go: the interface `SandboxRuntime`, which the
-- backends implement. `W` is the state behind it (containers, virtual machines). `inspector` and
-- `metrics` are there if the backend also implements `SandboxRuntimeInspector` and
-- `SandboxRuntimeMetrics`.
use e2b_local.Prelude.{ℕ, String, Bool, Option, List}
use e2b_local.Prelude.Dict.{Dict}
use e2b_local.Prelude.Int.{ℤ}
use e2b_local.Errors.{Result}
use e2b_local.Types.{Time, VolumeMount, SandboxRecord, SandboxRuntimeInfo, SandboxTimeoutAction}

pub record SandboxRuntimeCreateRequest : Type 0 where
  pub sandbox_id : String
  pub template_id : String
  pub metadata : Dict String String
  pub env_vars : Dict String String
  pub volume_mounts : List VolumeMount
  pub created_at : Time
  pub end_at : Time
  pub allow_internet_access : Option Bool
  pub on_timeout : SandboxTimeoutAction

pub record SandboxRuntimeInspection : Type 0 where
  pub info : SandboxRuntimeInfo
  pub state : String
  pub exists : Bool

-- `SandboxMetricsRequest` and `TeamMetricsRequest`, which have the same fields.
pub record MetricsRequest : Type 0 where
  pub start : Option ℤ
  pub end : Option ℤ

-- The loads are left out: the gateway gives a constant zero for each.
pub record SandboxMetric : Type 0 where
  pub cpu_count : ℤ
  pub disk_total : ℤ
  pub mem_total : ℤ
  pub timestamp : Time
  pub timestamp_unix : ℤ

-- A call reads and changes the state behind the runtime, also where it fails.
abbrev pub RuntimeCall : Type 0 → Type 0 → Type 0
RuntimeCall W A = W → Result A × W

pub record SandboxRuntime (W : Type 0) : Type 0 where
  pub create_sandbox : SandboxRuntimeCreateRequest → RuntimeCall W SandboxRuntimeInfo
  pub delete_sandbox : SandboxRuntimeInfo → RuntimeCall W (Unit {0})
  pub pause_sandbox : SandboxRuntimeInfo → RuntimeCall W (Unit {0})
  pub resume_sandbox : SandboxRuntimeInfo → RuntimeCall W SandboxRuntimeInfo
  pub inspector : Option (SandboxRuntimeInfo → RuntimeCall W SandboxRuntimeInspection)
  pub metrics : Option (SandboxRecord → MetricsRequest → RuntimeCall W (List SandboxMetric))

-- What a handler reads of its surroundings: the n-th reading of the clock and the n-th random id,
-- none where the random source fails.
pub record Surroundings (W : Type 0) : Type 0 where
  pub runtime : SandboxRuntime W
  pub clock : ℕ → Time
  pub random_id : ℕ → Option String
