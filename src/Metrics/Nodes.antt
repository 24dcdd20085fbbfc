-- ===== src/Metrics/Nodes.antt =====
-- internal/gateway/gateway_callbacks.go: the local node, which is the only one. What the source
-- asks the host for (the processors, the architecture) is an argument.
use e2b_local.Prelude.{
  ℕ, ◌*◌, String, Bool, not, List, [], ◌∷◌, length, if◌then◌else◌, ◌==◌, string_eq, trim_space,
}
use e2b_local.Prelude.Texts.{among}
use e2b_local.Errors.{Result, ok, err, bad_request, not_found}
use e2b_local.Types.{SandboxRecord, default_envd_version}
use e2b_local.Management.{GatewayTemplate, ManagementStore, node_status, set_node_status}
use e2b_local.Names.{append_unique_strings}
use e2b_local.Catalog.{Context, default_list_templates}
use e2b_local.Metrics.{count_records, api_running}

abbrev pub local_node_id : String
local_node_id = "local"

pub record Node : Type 0 where
  pub id : String
  pub create_successes : ℕ
  pub sandbox_count : ℕ
  pub allocated_cpu : ℕ
  pub allocated_memory_bytes : ℕ
  pub cpu_count : ℕ
  pub status : String
  pub version : String

unfoldable pub local_node : ℕ → List SandboxRecord → ManagementStore → Node
local_node cpus rs s =
    let running = count_records api_running rs in
    record {
      id = local_node_id;
      create_successes = length rs;
      sandbox_count = running;
      allocated_cpu = running;
      allocated_memory_bytes = running * (512 * 1024 * 1024);
      cpu_count = cpus;
      status = node_status local_node_id s;
      version = default_envd_version;
    }

unfoldable pub default_list_nodes : ℕ → List SandboxRecord → ManagementStore → List Node
default_list_nodes cpus rs s = local_node cpus rs s ∷ []

unfoldable pub valid_node_status : String → Bool
valid_node_status status =
    among status ("connecting" ∷ "draining" ∷ "ready" ∷ "standby" ∷ "unhealthy" ∷ [])

unfoldable pub default_set_node_status :
    String → String → ManagementStore → Result (Unit {0}) × ManagementStore
default_set_node_status node_id status s =
    if not (trim_space node_id == local_node_id)
    then (err not_found, s)
    else if not (valid_node_status status)
    then (err bad_request, s)
    else (ok tt, set_node_status local_node_id status s)

-- `NodeDetail` is the node with the builds that the templates name.
pub record NodeDetail : Type 0 where
  pub cached_builds : List String
  pub node : Node

unfoldable pub cached_builds : List GatewayTemplate → List String → List String
cached_builds [] builds = builds
cached_builds (t ∷ ts) builds =
    cached_builds ts
      (if t.build_id == "" then builds else append_unique_strings builds (t.build_id ∷ []))

-- A listing that fails leaves no builds.
abbrev builds_of : Result (List GatewayTemplate) → List String
builds_of (err e) = []
builds_of (ok ts) = cached_builds ts []

unfoldable pub default_get_node :
    Context → ℕ → List SandboxRecord → String → ManagementStore → Result NodeDetail
default_get_node x cpus rs node_id s =
    if not (trim_space node_id == local_node_id)
    then err not_found
    else ok (record {
      cached_builds = builds_of (default_list_templates x s);
      node = local_node cpus rs s;
    })
