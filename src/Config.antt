-- ===== src/Config.antt =====
-- internal/gateway/config.go: the configuration, its defaults, the paths that are resolved in it, and
-- its validation. The environment of the process and Go's `net` and `url` are parameters; the paths
-- are those of a Unix system.
pub mod Validate
pub mod Laws
use Prim.Native.String.{◌++◌ as text_append}
use e2b_local.Prelude.{
  ℕ, String, Bool, true, false, not, ◌&&◌, ◌||◌, Option, none, some, List, [], if◌then◌else◌, ◌==◌,
  string_eq, trim_space, cut_prefix,
}
use e2b_local.Prelude.Int.{ℤ, pos}
use e2b_local.Prelude.Dict.{Dict}
use e2b_local.Prelude.Paths.{clean, is_rooted}

pub record ServerConfig : Type 0 where
  pub addr : String

pub record TrafficConfig : Type 0 where
  pub advertised_host : String
  pub interface : String
  pub advertised_probe_addr : String

pub record DockerRuntimeConfig : Type 0 where
  pub host : String
  pub platform : String
  pub container_name_prefix : String
  pub envd_binary : String
  pub enable_fuse : Bool
  pub published_ports : List ℤ
  pub published_host_ip : String
  pub health_timeout_seconds : ℤ
  pub volume_host_path : String

pub record OrbstackTemplateConfig : Type 0 where
  pub memory : String
  pub cpus : String
  pub disk : String
  pub start_cmd : String
  pub base_machine : String

pub record OrbstackRuntimeConfig : Type 0 where
  pub machine_name_prefix : String
  pub default_memory : String
  pub default_cpus : String
  pub default_disk : String
  pub isolated : Bool
  pub envd_binary : String
  pub envd_port : ℤ
  pub health_timeout_seconds : ℤ
  pub volume_host_path : String
  pub templates : Dict String OrbstackTemplateConfig

pub record AppleContainerTemplateConfig : Type 0 where
  pub image : String
  pub cpus : ℤ
  pub memory_mb : ℤ
  pub start_cmd : String
  pub prebaked_envd_path : String

pub record AppleContainerRuntimeConfig : Type 0 where
  pub container_name_prefix : String
  pub envd_binary : String
  pub envd_port : ℤ
  pub health_timeout_seconds : ℤ
  pub default_cpus : ℤ
  pub default_memory_mb : ℤ
  pub templates : Dict String AppleContainerTemplateConfig

-- `RuntimeConfig` and `TemplateBuildConfig` have one field each.
pub record Config : Type 0 where
  pub server : ServerConfig
  pub traffic : TrafficConfig
  pub runtime_type : String
  pub docker : DockerRuntimeConfig
  pub orbstack : OrbstackRuntimeConfig
  pub apple_container : AppleContainerRuntimeConfig
  pub max_concurrent : ℤ

-- What the defaults read of the process: its home and working directories, the address of the Docker
-- daemon, the directory for volumes, and where a bundled file is.
pub record Process : Type 0 where
  pub home : Option String
  pub working_dir : Option String
  pub docker_host : String
  pub volume_host_path : String
  pub bundled : String → String

unfoldable pub default_config : Process → Config
default_config p = record {
  server = record { addr = "127.0.0.1:3000" };
  traffic = record { advertised_host = ""; interface = ""; advertised_probe_addr = "8.8.8.8:80" };
  runtime_type = "docker";
  docker = record {
    host = p.docker_host;
    platform = "";
    container_name_prefix = "e2b-envd-";
    envd_binary = "";
    enable_fuse = true;
    published_ports = [];
    published_host_ip = "0.0.0.0";
    health_timeout_seconds = pos 30;
    volume_host_path = p.volume_host_path;
  };
  orbstack = record {
    machine_name_prefix = "e2b-sandbox-";
    default_memory = "2G";
    default_cpus = "2";
    default_disk = "16G";
    isolated = false;
    envd_binary = p.bundled "envd-bin/envd-linux-arm64";
    envd_port = pos 49983;
    health_timeout_seconds = pos 60;
    volume_host_path = p.volume_host_path;
    templates = [];
  };
  apple_container = record {
    container_name_prefix = "e2b-sandbox-";
    envd_binary = p.bundled "envd-bin/envd-linux-arm64";
    envd_port = pos 49983;
    health_timeout_seconds = pos 60;
    default_cpus = pos 4;
    default_memory_mb = pos 1024;
    templates = [];
  };
  max_concurrent = pos 2;
}

-- `filepath.Join` of two parts, where an empty one is left out.
abbrev join : String → String → String
join a b =
    if a == ""
    then if b == "" then "" else clean b
    else if b == ""
    then clean a
    else clean (text_append a (text_append "/" b))

abbrev not_blank : Option String → Option String
not_blank none = none
not_blank (some dir) = if trim_space dir == "" then none else some dir

abbrev in_home : Option String → Option String → String
in_home none rest = ""
in_home (some home) none = home
in_home (some home) (some rest) = join home rest

unfoldable pub expand_home_path : Process → String → String
unfolding clean cut_prefix trim_space
expand_home_path p value =
    if value == "~" then in_home (not_blank p.home) none else elim (cut_prefix "~/" value) [
      | none ↦ ""
      | some rest ↦ in_home (not_blank p.home) (some rest)
    ]

abbrev or_else : String → String → String
or_else text other = if text == "" then other else text

abbrev dir_of : Option String → String
dir_of none = ""
dir_of (some dir) = dir

unfoldable pub resolve_local_path : Process → String → String → String
unfolding expand_home_path clean is_rooted trim_space
resolve_local_path p base_dir given =
    let trimmed = trim_space given in
    let value = or_else (expand_home_path p trimmed) trimmed in
    let base = or_else base_dir (dir_of p.working_dir) in
    if trimmed == ""
    then ""
    else if is_rooted value
    then clean value
    else if base == ""
    then clean value
    else clean (join base value)

unfoldable pub resolve_local_paths : Process → String → Config → Config
unfolding resolve_local_path
resolve_local_paths p base_dir c = record c {
  docker = record c.docker {
    envd_binary = resolve_local_path p base_dir c.docker.envd_binary;
    volume_host_path = resolve_local_path p base_dir c.docker.volume_host_path;
  };
  orbstack = record c.orbstack {
    envd_binary = resolve_local_path p base_dir c.orbstack.envd_binary;
    volume_host_path = resolve_local_path p base_dir c.orbstack.volume_host_path;
  };
  apple_container = record c.apple_container {
    envd_binary = resolve_local_path p base_dir c.apple_container.envd_binary;
  };
}
