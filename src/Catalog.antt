-- ===== src/Catalog.antt =====
-- internal/gateway/gateway_callbacks.go, gateway_api.go: the templates that the runtime knows and those
-- that the management store keeps, as one list, and the search in it.
pub mod Create
pub mod Tags
pub mod Builds
pub mod Laws
use e2b_local.Prelude.{
  ℕ, String, Bool, true, false, not, ◌||◌, Option, none, some, List, [], ◌∷◌, if◌then◌else◌, ◌==◌,
  string_eq, trim_space,
}
use e2b_local.Prelude.Int.{ℤ}
use e2b_local.Errors.{Error, Result, ok, err, not_found}
use e2b_local.Types.{Time, is_zero_time, default_envd_version}
use e2b_local.Images.{template_matches, split_template_name_and_tags}
use e2b_local.Management.{
  GatewayTemplate, ManagementStore, UuidLibrary, is_deleted_template, list_managed_templates,
}
use e2b_local.Management.Uploads.{FileStore}
use e2b_local.Builds.{TemplateBuildManager}

pub record SandboxRuntimeTemplate : Type 0 where
  pub template_id : String
  pub names : List String
  pub build_count : ℤ
  pub build_id : String
  pub build_status : String
  pub cpu_count : ℤ
  pub memory_mb : ℤ
  pub disk_size_mb : ℤ
  pub public : Bool
  pub spawn_count : ℤ
  pub created_at : Time
  pub updated_at : Time
  pub last_spawned_at : Option Time
  pub image_ref : String

-- What a handler reads besides its request: the time, what `ListTemplates` of the runtime gives, the
-- library of UUIDs, and two new UUIDs, one of them shortened in a name.
pub record Context : Type 0 where
  pub now : Time
  pub listed : Result (List SandboxRuntimeTemplate)
  pub uuids : UuidLibrary
  pub new_uuid : String
  pub new_name : String

-- What the handlers change: the templates and the uploaded files of the management store, and the
-- builds that run.
pub record Catalog : Type 0 where
  pub management : ManagementStore
  pub files : FileStore
  pub builds : TemplateBuildManager

abbrev or_id : List String → String → List String
or_id [] id = if id == "" then [] else id ∷ []
or_id (name ∷ names) id = name ∷ names

unfoldable pub gateway_template : Time → SandboxRuntimeTemplate → GatewayTemplate
gateway_template now t =
    let created = if is_zero_time t.created_at then now else t.created_at in
    record {
      template_id = t.template_id;
      aliases = [];
      names = or_id t.names t.template_id;
      build_count = t.build_count;
      build_id = t.build_id;
      build_status = t.build_status;
      cpu_count = t.cpu_count;
      memory_mb = t.memory_mb;
      disk_size_mb = t.disk_size_mb;
      envd_version = default_envd_version;
      public = t.public;
      spawn_count = t.spawn_count;
      created_at = created;
      updated_at = if is_zero_time t.updated_at then created else t.updated_at;
      last_spawned_at = t.last_spawned_at;
      image_ref = t.image_ref;
    }

-- The first loop: the templates of the runtime that are not deleted.
unfoldable pub runtime_part :
    Time → ManagementStore → List SandboxRuntimeTemplate → List GatewayTemplate
unfolding gateway_template is_deleted_template
runtime_part now s [] = []
runtime_part now s (t ∷ ts) =
    let rest = runtime_part now s ts in
    if is_deleted_template t.template_id s then rest else gateway_template now t ∷ rest

abbrev pub has_id : String → List GatewayTemplate → Bool
has_id id [] = false
has_id id (t ∷ ts) = let rest = has_id id ts in (t.template_id == id) || rest

-- A managed template stands in place of the last one with its id, which `indexByID` has, or at the end.
unfoldable pub put_template : GatewayTemplate → List GatewayTemplate → List GatewayTemplate
put_template t [] = t ∷ []
put_template t (u ∷ us) =
    let rest = put_template t us in
    if has_id t.template_id us
    then u ∷ rest
    else if u.template_id == t.template_id
    then t ∷ us
    else u ∷ rest

-- The second loop.
unfoldable pub managed_part :
    ManagementStore → List GatewayTemplate → List GatewayTemplate → List GatewayTemplate
unfolding put_template is_deleted_template
managed_part s [] result = result
managed_part s (t ∷ ts) result =
    managed_part s ts
      (if is_deleted_template t.template_id s then result else put_template t result)

abbrev pub both_parts :
    Time → ManagementStore → Result (List SandboxRuntimeTemplate) → Result (List GatewayTemplate)
both_parts now s (err e) = err e
both_parts now s (ok ts) = ok (managed_part s (list_managed_templates s) (runtime_part now s ts))

unfoldable pub default_list_templates : Context → ManagementStore → Result (List GatewayTemplate)
default_list_templates x s = both_parts x.now s x.listed

unfoldable pub first_match : String → List GatewayTemplate → Result GatewayTemplate
unfolding template_matches
first_match id [] = err not_found
first_match id (t ∷ ts) =
    let rest = first_match id ts in
    if template_matches t.template_id t.image_ref t.names t.aliases id then ok t else rest

unfoldable pub find_template : Context → String → ManagementStore → Result GatewayTemplate
unfolding default_list_templates first_match
find_template x given s =
    let id = trim_space given in
    if id == ""
    then err not_found
    else elim (default_list_templates x s) [ err e ↦ err e | ok ts ↦ first_match id ts ]

unfoldable pub find_template_by_tagged_name :
    Context → String → ManagementStore → Result GatewayTemplate
unfolding find_template split_template_name_and_tags
find_template_by_tagged_name x value s =
    let (name, tags) = split_template_name_and_tags x.new_name value none in
    let by_name = find_template x name s in
    elim (find_template x value s) [
      | ok t ↦ ok t
      | err e ↦ if not (name == value) then by_name else err not_found
    ]
