-- ===== src/Types/Merge.antt =====
-- `mergeSandboxRuntimeInfo` (gateway_callbacks.go) and `mergeSandboxRecordForCache` (store.go): a
-- field that the update leaves empty keeps its cached value.
pub mod Laws
use e2b_local.Prelude.{String, List, [], ◌∷◌, if◌then◌else◌, ◌==◌, string_eq}
use e2b_local.Prelude.Int.{ℤ, is_zero}
use e2b_local.Types.{
  SandboxRuntimeInfo, SandboxRecord, is_zero_time, internet_access_unspecified,
  timeout_action_unspecified,
}

abbrev pub or_text : String → String → String
or_text update existing = if update == "" then existing else update

-- A slice or a map of length 0 counts as empty.
abbrev pub or_list {ℓ} : {A : Type ℓ} → List A → List A → List A
or_list [] existing = existing
or_list (x ∷ xs) existing = x ∷ xs

abbrev pub or_int : ℤ → ℤ → ℤ
or_int update existing = if is_zero update then existing else update

unfoldable pub merge_sandbox_runtime_info :
    SandboxRuntimeInfo → SandboxRuntimeInfo → SandboxRuntimeInfo
merge_sandbox_runtime_info existing update = record {
  sandbox_id = or_text update.sandbox_id existing.sandbox_id;
  envd_url = or_text update.envd_url existing.envd_url;
  container_id = or_text update.container_id existing.container_id;
  container_name = or_text update.container_name existing.container_name;
  container_ip = or_text update.container_ip existing.container_ip;
  host_port = or_text update.host_port existing.host_port;
  machine_id = or_text update.machine_id existing.machine_id;
  volume_mounts = or_list update.volume_mounts existing.volume_mounts;
  published_ports = or_list update.published_ports existing.published_ports;
}

unfoldable pub merge_sandbox_record_for_cache : SandboxRecord → SandboxRecord → SandboxRecord
unfolding merge_sandbox_runtime_info
merge_sandbox_record_for_cache cached incoming =
    let info = merge_sandbox_runtime_info cached.runtime_info incoming.runtime_info in
    record {
      id = or_text incoming.id cached.id;
      template_id = or_text incoming.template_id cached.template_id;
      alias = or_text incoming.alias cached.alias;
      client_id = or_text incoming.client_id cached.client_id;
      envd_version = or_text incoming.envd_version cached.envd_version;
      metadata = or_list incoming.metadata cached.metadata;
      envd_url = or_text (or_text incoming.envd_url cached.envd_url) info.envd_url;
      runtime_info = info;
      created_at =
          if is_zero_time incoming.created_at then cached.created_at else incoming.created_at;
      end_at = if is_zero_time incoming.end_at then cached.end_at else incoming.end_at;
      state = or_text incoming.state cached.state;
      cpu_count = or_int incoming.cpu_count cached.cpu_count;
      disk_size_mb = or_int incoming.disk_size_mb cached.disk_size_mb;
      memory_mb = or_int incoming.memory_mb cached.memory_mb;
      internet_access_policy =
          if incoming.internet_access_policy == internet_access_unspecified
          then cached.internet_access_policy
          else incoming.internet_access_policy;
      on_timeout =
          if incoming.on_timeout == timeout_action_unspecified
          then cached.on_timeout
          else incoming.on_timeout;
    }
