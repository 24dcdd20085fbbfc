-- ===== src/Tests/Backends.antt =====
-- The theorems on the Docker backend, at an archive, a few ports and a name.
use e2b_local.Prelude.{ℕ, ◌≤◌, ◌≡◌, refl, true, false, none, some, List, [], ◌∷◌, text_length}
use e2b_local.Prelude.Int.{ℤ, pos, negsuc}
use e2b_local.Prelude.Order.{IsSorted, sort_slice}
use e2b_local.Prelude.{ltb}
use e2b_local.Errors.{ok}
use e2b_local.Archive.{TarReader, eof, entry, validate_template_archive}
use e2b_local.Archive.Laws.{is_accepted}
use e2b_local.Images.Ids.{starts_dashed, ends_dashed}
use e2b_local.Docker.Context.{append_template_file_to_docker_build_context}
use e2b_local.Docker.Context.Laws.{is_ok, append-validate}
use e2b_local.Docker.Dockerfile.{TemplateStep, dockerfile_from_template_build_start}
use e2b_local.Docker.Dockerfile.Components.{docker_safe_image_component, safe_component_lem}
use e2b_local.Docker.Ports.{
  normalize_docker_published_ports, IsUniquePort, has_port, asked, normalize_ports_lem,
}

abbrev archive : TarReader
archive =
    entry (record { name = "src/"; linkname = ""; regular = false; size = pos 0 }) none
      (entry (record { name = "src/a"; linkname = "../b"; regular = true; size = pos 7 }) (some 7)
        eof)

append-validate_example :
    is_ok (append_template_file_to_docker_build_context (λ h. true) (some archive))
    ≡ is_accepted (validate_template_archive (some archive))
append-validate_example = append-validate (λ h. true) (λ h. refl) (some archive)

abbrev ports : List ℤ
ports = pos 8080 ∷ pos 22 ∷ pos 8080 ∷ pos 49983 ∷ negsuc 4 ∷ pos 70000 ∷ []

published : normalize_docker_published_ports ports ≡ 22 ∷ 8080 ∷ []
unfolding normalize_docker_published_ports sort_slice
published = refl

normalize_ports_lem_example :
    IsSorted ltb (normalize_docker_published_ports ports)
    × (IsUniquePort (normalize_docker_published_ports ports))
    × ((p : ℕ) → has_port p (normalize_docker_published_ports ports) ≡ asked p ports)
normalize_ports_lem_example = normalize_ports_lem ports

component : docker_safe_image_component " --My  Template!" ≡ "my-template"
unfolding docker_safe_image_component
component = refl

safe_component_lem_example :
    (text_length (docker_safe_image_component " --My  Template!") ≤ 96)
    × (starts_dashed (docker_safe_image_component " --My  Template!") ≡ false)
    × (ends_dashed (docker_safe_image_component " --My  Template!") ≡ false)
safe_component_lem_example = safe_component_lem " --My  Template!"

abbrev steps : List TemplateStep
steps =
    record { kind = "run"; args = "make" ∷ "build" ∷ []; files_hash = none }
    ∷ record { kind = "Copy"; args = "a" ∷ "/b" ∷ "me" ∷ []; files_hash = some "h" }
    ∷ []

dockerfile :
    dockerfile_from_template_build_start (λ t. ok t) (λ s. s) (some "debian") none steps
    ≡ ok "FROM debian\nUSER build\nRUN make\nCOPY --chown=me a /b\n"
unfolding dockerfile_from_template_build_start
dockerfile = refl
