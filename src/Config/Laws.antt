-- ===== src/Config/Laws.antt =====
-- What a valid configuration has (internal/gateway/config.go), and that the defaults are valid.
use Prim.Native.Char.{Char, code}
use Prim.Native.String.{[] as nil, ◌∷◌ as cons}
use text.Mathlib.TextEquality.{eq_iff}
use e2b_local.Prelude.Int.{ℤ, pos, negsuc}
use e2b_local.Prelude.{
  ℕ, ◌≤◌, All, List, [], ◌∷◌, ◌⊎◌, inl, inr, Bool-cases, String, ◌≡◌, refl, Bool, true, false,
  Option, none, some, arith, ◌==◌, string_eq, trim_space,
}
use e2b_local.Prelude.Paths.{is_rooted}
use e2b_local.Config.{Config, Process, default_config}
use e2b_local.Config.Validate.{
  NetLibrary, refuse, or_next, is_positive, is_port, all_ports, validate_docker, validate_traffic,
  validate, validate_advertised_host, validate_interface_name,
}

-- A number that is at least one, and a port.
abbrev pub IsAtLeastOne : ℤ → Type 0
IsAtLeastOne z = (n : ℕ) × (z ≡ pos n) × (1 ≤ n)

abbrev pub IsPort : ℤ → Type 0
IsPort z = (n : ℕ) × (z ≡ pos n) × (1 ≤ n) × (n ≤ 65535)

-- A path that starts with a slash.
abbrev pub IsAbsolute : String → Type 0
IsAbsolute path = (c : Char) × (rest : String) × (path ≡ cons c rest) × (code c ≡ 47)

-- What the Docker backend and the build manager rely on.
pub record IsDockerReady (net : NetLibrary) (c : Config) : Type 0 where
  pub builds : IsAtLeastOne c.max_concurrent
  pub ports : All IsPort c.docker.published_ports
  pub waits : IsAtLeastOne c.docker.health_timeout_seconds
  pub volumes : IsAbsolute c.docker.volume_host_path
  pub binary : (c.docker.envd_binary ≡ "") ⊎ IsAbsolute c.docker.envd_binary
  pub address : net.parses_ip (trim_space c.docker.published_host_ip) ≡ true
  pub host : net.parses_uri c.docker.host ≡ true

positive-IsAtLeastOne : (z : ℤ) → is_positive z ≡ true → IsAtLeastOne z
positive-IsAtLeastOne (pos n) h = (n, refl, ground (arith, h))
positive-IsAtLeastOne (negsuc n) h = absurd (cc h)

port-IsPort : (z : ℤ) → is_port z ≡ true → IsPort z
port-IsPort (pos n) h = (n, refl, ground (arith, h), ground (arith, h))
port-IsPort (negsuc n) h = absurd (cc h)

ports-IsPort : (zs : List ℤ) → all_ports zs ≡ true → All IsPort zs
ports-IsPort [] h = tt
ports-IsPort (z ∷ zs) h = (port-IsPort z (ground (arith, h)), ports-IsPort zs (ground (arith, h)))

rooted-IsAbsolute : (path : String) → is_rooted path ≡ true → IsAbsolute path
unfolding is_rooted
rooted-IsAbsolute nil h = absurd (cc h)
rooted-IsAbsolute (cons c rest) h = (c, rest, refl, ground (arith, h))

refuse-none :
    (bad : Bool) (message : String) (rest : Option String)
    → refuse bad message rest ≡ none
    → (bad ≡ false) × (rest ≡ none)
unfolding refuse
refuse-none true message rest h = absurd (cc h)
refuse-none false message rest h = (refl, h)

or_next-none :
    (first rest : Option String) → or_next first rest ≡ none → (first ≡ none) × (rest ≡ none)
unfolding or_next
or_next-none none rest h = (refl, h)
or_next-none (some message) rest h = absurd (cc h)

docker-ready :
    (net : NetLibrary) (c : Config)
    → is_positive c.max_concurrent ≡ true
    → validate_docker net c.docker ≡ none
    → IsDockerReady net c
unfolding validate_docker
docker-ready net c builds h =
    let (host_there, h_1) = refuse-none _ _ _ h in
    let (prefix_there, h_2) = refuse-none _ _ _ h_1 in
    let (binary, h_3) = refuse-none _ _ _ h_2 in
    let (waits, h_4) = refuse-none _ _ _ h_3 in
    let (path_there, h_5) = refuse-none _ _ _ h_4 in
    let (volumes, h_6) = refuse-none _ _ _ h_5 in
    let (ip_there, h_7) = refuse-none _ _ _ h_6 in
    let (address, h_8) = refuse-none _ _ _ h_7 in
    let (ports, h_9) = refuse-none _ _ _ h_8 in
    let (host, h_10) = refuse-none _ _ _ h_9 in
    record {
      builds = positive-IsAtLeastOne c.max_concurrent builds;
      ports = ports-IsPort c.docker.published_ports (ground (arith, ports));
      waits = positive-IsAtLeastOne c.docker.health_timeout_seconds (ground (arith, waits));
      volumes = rooted-IsAbsolute c.docker.volume_host_path (ground (arith, volumes));
      binary = elim (Bool-cases (c.docker.envd_binary == "")) [
        | inl e ↦ inl ((eq_iff c.docker.envd_binary "").0 e)
        | inr e ↦ inr (rooted-IsAbsolute c.docker.envd_binary (ground (arith, binary, e)))
      ];
      address = ground (arith, address);
      host = ground (arith, host);
    }

-- A valid configuration of the Docker backend allows at least one build, publishes only ports between 1
-- and 65535, waits for at least a second, keeps the volumes under a path that starts with a slash, has
-- no path of the envd binary or one that starts with a slash, and has a host address and a daemon's
-- address that the libraries accept.
pub validate-docker :
    (net : NetLibrary) (c : Config)
    → c.runtime_type ≡ "docker"
    → validate net c ≡ none
    → IsDockerReady net c
unfolding validate
validate-docker net c is_docker h =
    let (addr, h_1) = refuse-none _ _ _ h in
    let (traffic, h_2) = or_next-none (validate_traffic c.traffic) _ h_1 in
    let (typed, h_3) = refuse-none _ _ _ h_2 in
    let (builds, h_4) = refuse-none _ _ _ h_3 in
    docker-ready net c (ground (arith, builds)) (rw is_docker at h_4)

-- The default configuration is valid, if the Docker daemon's address is not empty and is a URI, the
-- directory for the volumes is an absolute path without spaces around it, and `0.0.0.0` is an IP
-- address.
pub validate-default :
    (net : NetLibrary) (p : Process)
    → (p.docker_host == "") ≡ false
    → net.parses_uri p.docker_host ≡ true
    → is_rooted p.volume_host_path ≡ true
    → (trim_space p.volume_host_path == "") ≡ false
    → net.parses_ip "0.0.0.0" ≡ true
    → validate net (default_config p) ≡ none
unfolding validate validate_docker default_config refuse or_next validate_traffic
    validate_advertised_host validate_interface_name
validate-default net p host uri rooted path ip = rw (host, uri, rooted, path, ip) refl
