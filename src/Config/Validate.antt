-- ===== src/Config/Validate.antt =====
-- internal/gateway/config.go: the validation of the configuration. The messages name the field, as in
-- the source; what a library says about a value is left out of them.
use Prim.Native.Char.{code}
use Prim.Native.String.{[] as nil, ◌∷◌ as cons}
use e2b_local.Prelude.{
  String, Bool, true, false, not, ◌&&◌, ◌||◌, Option, none, some, List, [], ◌∷◌, leb, ltb,
  if◌then◌else◌, ◌==◌, string_eq, trim_space, cut_prefix, has_prefix, nat_beq,
}
use e2b_local.Prelude.Int.{ℤ, pos, negsuc, is_negative}
use e2b_local.Prelude.Dict.{Dict}
use e2b_local.Prelude.Paths.{is_rooted}
use e2b_local.Images.{contains, slash, cut_first, cut_last}
use e2b_local.Config.{
  Config, TrafficConfig, DockerRuntimeConfig, OrbstackRuntimeConfig, OrbstackTemplateConfig,
  AppleContainerRuntimeConfig, AppleContainerTemplateConfig,
}

-- Whether Go's `net.ParseIP` and `url.ParseRequestURI` accept a text.
pub record NetLibrary : Type 0 where
  pub parses_ip : String → Bool
  pub parses_uri : String → Bool

-- `strings.Contains`.
unfoldable pub contains_text : String → String → Bool
unfolding cut_prefix
contains_text p nil = p == ""
contains_text p (cons c s) = let rest = contains_text p s in has_prefix p (cons c s) || rest

abbrev pub no_brackets : String → Bool
no_brackets s = not (contains 91 s) && not (contains 93 s)

-- Behind the `]` of a host in brackets.
abbrev bracketed_port : String → Bool
bracketed_port nil = false
bracketed_port (cons c port) = nat_beq (code c) 58 && not (contains 58 port) && no_brackets port

abbrev bracketed : Option (String × String) → Bool
bracketed none = false
bracketed (some (host, rest)) = not (contains 91 host) && bracketed_port rest

abbrev plain_host : Option (String × String) → Bool
plain_host none = false
plain_host (some (host, port)) = not (contains 58 host) && no_brackets host && no_brackets port

-- Whether `net.SplitHostPort` accepts a text: `host:port`, where a host with colons is in brackets.
unfoldable pub splits_host_port : String → Bool
unfolding cut_first cut_last
splits_host_port nil = false
splits_host_port (cons c s) =
    if nat_beq (code c) 91 then bracketed (cut_first 93 s) else plain_host (cut_last 58 (cons c s))

-- `if bad { return fmt.Errorf(message) }`, before the rest.
unfoldable pub refuse : Bool → String → Option String → Option String
refuse bad message rest = if bad then some message else rest

unfoldable pub or_next : Option String → Option String → Option String
or_next none rest = rest
or_next (some message) rest = some message

abbrev pub is_blank : String → Bool
is_blank s = trim_space s == ""

abbrev pub is_positive : ℤ → Bool
is_positive (pos n) = ltb 0 n
is_positive (negsuc n) = false

abbrev pub is_port : ℤ → Bool
is_port (pos n) = ltb 0 n && leb n 65535
is_port (negsuc n) = false

unfoldable pub validate_advertised_host : String → Option String
unfolding contains_text splits_host_port trim_space
validate_advertised_host given =
    let host = trim_space given in
    if host == ""
    then none
    else refuse (contains_text "://" host)
        "traffic.advertised_host must be a host or IP without scheme"
        (refuse (contains slash host) "traffic.advertised_host must be a host or IP without path"
          (refuse (splits_host_port host) "traffic.advertised_host must not include a port" none))

unfoldable pub validate_interface_name : String → Option String
unfolding trim_space
validate_interface_name given =
    let name = trim_space given in
    refuse (contains 32 name || contains 9 name || contains 13 name || contains 10 name)
      "traffic.interface must be a single interface name" none

unfoldable pub validate_traffic : TrafficConfig → Option String
unfolding validate_advertised_host validate_interface_name splits_host_port trim_space
validate_traffic c = or_next (validate_advertised_host c.advertised_host) (
    or_next (validate_interface_name c.interface) (
      refuse (is_blank c.advertised_probe_addr) "traffic.advertised_probe_addr is required" (
        refuse (not (splits_host_port c.advertised_probe_addr))
          "traffic.advertised_probe_addr must be host:port" none)))

-- The loop over the published ports.
abbrev pub all_ports : List ℤ → Bool
all_ports [] = true
all_ports (port ∷ ports) = let rest = all_ports ports in is_port port && rest

unfoldable pub validate_docker : NetLibrary → DockerRuntimeConfig → Option String
unfolding is_rooted trim_space
validate_docker net c = refuse (c.host == "") "docker.host is required" (
    refuse (c.container_name_prefix == "") "docker.container_name_prefix is required" (
      refuse (not (c.envd_binary == "") && not (is_rooted c.envd_binary))
        "docker.envd_binary must be an absolute path"
        (refuse (not (is_positive c.health_timeout_seconds))
          "docker.health_timeout_seconds must be positive"
          (refuse (is_blank c.volume_host_path) "docker.volume_host_path is required" (
            refuse (not (is_rooted c.volume_host_path))
              "docker.volume_host_path must be an absolute path"
              (refuse (is_blank c.published_host_ip) "docker.published_host_ip is required" (
                refuse (not (net.parses_ip (trim_space c.published_host_ip)))
                  "docker.published_host_ip must be an IP address"
                  (refuse (not (all_ports c.published_ports))
                    "docker.published_ports values must be between 1 and 65535"
                    (refuse (not (net.parses_uri c.host)) "docker.host is invalid" none)))))))))

abbrev orbstack_template : String × OrbstackTemplateConfig → Option String
orbstack_template (id, t) = refuse (is_blank id) "orbstack.templates keys must not be empty" (
    refuse (contains 10 (trim_space t.base_machine))
      "orbstack.templates base_machine must be a single machine name" none)

abbrev orbstack_templates : Dict String OrbstackTemplateConfig → Option String
orbstack_templates [] = none
orbstack_templates (entry ∷ entries) =
    let rest = orbstack_templates entries in or_next (orbstack_template entry) rest

unfoldable pub validate_orbstack : OrbstackRuntimeConfig → Option String
unfolding is_rooted trim_space
validate_orbstack c =
    refuse (is_blank c.machine_name_prefix) "orbstack.machine_name_prefix is required" (
      refuse (is_blank c.default_memory) "orbstack.default_memory is required" (
        refuse (is_blank c.default_cpus) "orbstack.default_cpus is required" (
          refuse (is_blank c.default_disk) "orbstack.default_disk is required" (
            refuse (is_blank c.envd_binary) "orbstack.envd_binary is required" (
              refuse (not (is_rooted c.envd_binary)) "orbstack.envd_binary must be an absolute path"
                (refuse (not (is_positive c.envd_port)) "orbstack.envd_port must be positive" (
                  refuse (not (is_positive c.health_timeout_seconds))
                    "orbstack.health_timeout_seconds must be positive"
                    (refuse (is_blank c.volume_host_path) "orbstack.volume_host_path is required" (
                      refuse (not (is_rooted c.volume_host_path))
                        "orbstack.volume_host_path must be an absolute path"
                        (orbstack_templates c.templates))))))))))

abbrev apple_template : String × AppleContainerTemplateConfig → Option String
apple_template (id, t) = refuse (is_blank id) "applecontainer.templates keys must not be empty" (
    refuse (is_blank t.image) "applecontainer.templates image is required" (
      refuse (is_negative t.cpus) "applecontainer.templates cpus must not be negative" (
        refuse (is_negative t.memory_mb) "applecontainer.templates memory_mb must not be negative" (
          refuse
            (not (is_blank t.prebaked_envd_path)
              && not (is_rooted (trim_space t.prebaked_envd_path)))
            "applecontainer.templates prebaked_envd_path must be absolute" none))))

abbrev apple_templates : Dict String AppleContainerTemplateConfig → Option String
apple_templates [] = none
apple_templates (entry ∷ entries) =
    let rest = apple_templates entries in or_next (apple_template entry) rest

-- `requiresHostEnvdBinary` after the loop.
abbrev requires_host_envd_binary : Dict String AppleContainerTemplateConfig → Bool
requires_host_envd_binary [] = false
requires_host_envd_binary ((id, t) ∷ entries) =
    let rest = requires_host_envd_binary entries in is_blank t.prebaked_envd_path || rest

unfoldable pub validate_apple_container : AppleContainerRuntimeConfig → Option String
unfolding is_rooted trim_space
validate_apple_container c =
    refuse (is_blank c.container_name_prefix) "applecontainer.container_name_prefix is required" (
      refuse (not (is_blank c.envd_binary) && not (is_rooted c.envd_binary))
        "applecontainer.envd_binary must be an absolute path"
        (refuse (not (is_port c.envd_port)) "applecontainer.envd_port must be between 1 and 65535" (
          refuse (not (is_positive c.health_timeout_seconds))
            "applecontainer.health_timeout_seconds must be positive"
            (refuse (not (is_positive c.default_cpus))
              "applecontainer.default_cpus must be positive"
              (refuse (not (is_positive c.default_memory_mb))
                "applecontainer.default_memory_mb must be positive"
                (refuse (elim c.templates [ [] ↦ true | _ ↦ false ])
                  "applecontainer.templates is required"
                  (or_next (apple_templates c.templates) (
                    refuse (requires_host_envd_binary c.templates && is_blank c.envd_binary)
                      "applecontainer.envd_binary is required unless every template sets prebaked_envd_path"
                      none))))))))

-- The part of the validation that depends on the type of the runtime.
abbrev pub validate_runtime : NetLibrary → Config → Option String
validate_runtime net c =
    if c.runtime_type == "docker"
    then validate_docker net c.docker
    else if c.runtime_type == "orbstack"
    then validate_orbstack c.orbstack
    else if c.runtime_type == "applecontainer"
    then validate_apple_container c.apple_container
    else some "runtime.type must be docker, orbstack, or applecontainer"

unfoldable pub validate : NetLibrary → Config → Option String
unfolding validate_traffic
validate net c = refuse (c.server.addr == "") "server.addr is required" (
    or_next (validate_traffic c.traffic) (
      refuse (c.runtime_type == "") "runtime.type is required" (
        refuse (not (is_positive c.max_concurrent))
          "template_builds.max_concurrent must be greater than 0" (validate_runtime net c))))
