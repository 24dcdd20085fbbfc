-- ===== src/Tests/Configs.antt =====
-- The theorems on the configuration, at the defaults of one process.
use e2b_local.Prelude.{◌≡◌, refl, true, false, none, some, trim_space, ◌==◌, string_eq}
use e2b_local.Prelude.Paths.{is_rooted}
use e2b_local.Config.{Config, Process, default_config, resolve_local_path}
use e2b_local.Config.Validate.{NetLibrary, validate, splits_host_port}
use e2b_local.Config.Laws.{IsDockerReady, validate-docker, validate-default}

abbrev process : Process
process = record {
  home = some "/home/me";
  working_dir = some "/srv";
  docker_host = "unix:///var/run/docker.sock";
  volume_host_path = "/home/me/.e2b-local/volumes";
  bundled = λ path. path;
}

abbrev net : NetLibrary
net = record { parses_ip = λ s. true; parses_uri = λ s. true }

in_home : resolve_local_path process "/etc" " ~/data/../volumes " ≡ "/home/me/volumes"
unfolding resolve_local_path
in_home = refl

port_missing : splits_host_port "[::1]" ≡ false
unfolding splits_host_port
port_missing = refl

abbrev cfg : Config
cfg = default_config process

rooted : is_rooted process.volume_host_path ≡ true
unfolding is_rooted
rooted = refl

path-named : (trim_space process.volume_host_path == "") ≡ false
unfolding trim_space
path-named = refl

cfg-valid : validate net cfg ≡ none
cfg-valid = validate-default net process refl refl rooted path-named refl

is_docker : cfg.runtime_type ≡ "docker"
unfolding default_config
is_docker = refl

validate-docker_example : IsDockerReady net cfg
validate-docker_example = validate-docker net cfg is_docker cfg-valid
