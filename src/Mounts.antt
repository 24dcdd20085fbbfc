-- ===== src/Mounts.antt =====
-- The volume mounts of a request and of a response: `sandboxVolumeMounts` of
-- internal/gateway/gateway_callbacks.go, `normalizeVolumeMounts` of shared_helpers.go and
-- `apiSandboxVolumeMounts` of gateway_api.go.
use e2b_local.Prelude.{String, ◌&&◌, List, [], ◌∷◌, map, ◌==◌, string_eq, if◌then◌else◌, trim_space}
use e2b_local.Types.{VolumeMount}
use e2b_local.Types.Merge.{or_text}

-- `e2bapi.SandboxVolumeMount`.
pub record SandboxVolumeMount : Type 0 where
  pub name : String
  pub path : String

abbrev volume_mount : String → String → VolumeMount
volume_mount name path = record { name = name; path = path; volume_id = name; mount_path = path }

unfoldable pub sandbox_volume_mounts : List SandboxVolumeMount → List VolumeMount
unfolding trim_space
sandbox_volume_mounts [] = []
sandbox_volume_mounts (m ∷ ms) =
    let rest = sandbox_volume_mounts ms in
    let name = trim_space m.name in
    let path = trim_space m.path in
    if name == "" && path == "" then rest else volume_mount name path ∷ rest

abbrev pub normalize_volume_mount : VolumeMount → VolumeMount
normalize_volume_mount m =
    let name = trim_space m.name in
    let mount_path = trim_space m.mount_path in
    record {
      name = name;
      path = or_text (trim_space m.path) mount_path;
      volume_id = or_text (trim_space m.volume_id) name;
      mount_path = mount_path;
    }

unfoldable pub normalize_volume_mounts : List VolumeMount → List VolumeMount
unfolding trim_space
normalize_volume_mounts = map normalize_volume_mount

unfoldable pub api_sandbox_volume_mounts : List VolumeMount → List SandboxVolumeMount
unfolding normalize_volume_mounts
api_sandbox_volume_mounts mounts =
    map (λ m. record { name = m.name; path = m.path }) (normalize_volume_mounts mounts)
