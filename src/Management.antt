-- ===== src/Management.antt =====
-- internal/gateway/management_store.go: `GatewayManagementStore`, the templates with their tags, logs
-- and builds, and the status of the nodes. `saveLocked` always returns nil, so the branches that undo
-- a change after a failed save are dead, and left out. Each operation is one critical section.
pub mod Laws
pub mod Uploads
use e2b_local.Prelude.{
  ℕ, String, Bool, true, false, Option, none, some, List, [], ◌∷◌, map, ltb, nat_beq, if◌then◌else◌,
  ◌==◌, string_eq, trim_space,
}
use e2b_local.Prelude.Dict.{Dict, lookup, insert, delete}
use e2b_local.Prelude.Order.{sort_slice}
use e2b_local.Prelude.Texts.{text_before}
use e2b_local.Prelude.Int.{ℤ}
use e2b_local.Types.{Time, is_zero_time}
use e2b_local.Names.{normalized_tags}
use e2b_local.Logs.{BuildLogEntry}

-- The fields of `e2bapi.Template` and the image; the user who made it is left out.
pub record GatewayTemplate : Type 0 where
  pub template_id : String
  pub aliases : List String
  pub names : List String
  pub build_count : ℤ
  pub build_id : String
  pub build_status : String
  pub cpu_count : ℤ
  pub memory_mb : ℤ
  pub disk_size_mb : ℤ
  pub envd_version : String
  pub public : Bool
  pub spawn_count : ℤ
  pub created_at : Time
  pub updated_at : Time
  pub last_spawned_at : Option Time
  pub image_ref : String

-- A UUID is its text.
abbrev pub Uuid : Type 0
Uuid = String

pub record TemplateTag : Type 0 where
  pub build_id : Uuid
  pub created_at : Time
  pub tag : String

pub record ManagedTemplateBuild : Type 0 where
  pub template : GatewayTemplate
  pub logs : List BuildLogEntry

pub record ManagedTemplate : Type 0 where
  pub template : GatewayTemplate
  pub tags : Dict String TemplateTag
  pub logs : List BuildLogEntry
  pub builds : Dict String ManagedTemplateBuild

pub record ManagementStore : Type 0 where
  pub templates : Dict String ManagedTemplate
  pub deleted_templates : Dict String Bool
  pub node_statuses : Dict String String

unfoldable pub new_management_store : ManagementStore
new_management_store = record { templates = []; deleted_templates = []; node_statuses = [] }

-- `uuid.Parse`, and `uuid.NewSHA1` of the URL made of a template's id and a value.
pub record UuidLibrary : Type 0 where
  pub parse : String → Option Uuid
  pub new_sha1 : String → String → Uuid

abbrev or_trimmed : String → String → String
or_trimmed value other = if value == "" then trim_space other else value

abbrev parsed_or : Option Uuid → Uuid → Uuid
parsed_or none fallback = fallback
parsed_or (some u) fallback = u

unfoldable pub stable_template_build_uuid : UuidLibrary → String → String → Uuid
stable_template_build_uuid lib template_id build_id =
    let value = trim_space build_id in
    let hashed = lib.new_sha1 (trim_space template_id) (or_trimmed value template_id) in
    if value == "" then hashed else parsed_or (lib.parse value) hashed

-- The zero value that a Go map gives for a missing key.
abbrev pub tags_of : Option ManagedTemplate → Dict String TemplateTag
tags_of none = []
tags_of (some item) = item.tags

abbrev pub builds_of : Option ManagedTemplate → Dict String ManagedTemplateBuild
builds_of none = []
builds_of (some item) = item.builds

abbrev pub logs_of : Option ManagedTemplate → List BuildLogEntry
logs_of none = []
logs_of (some item) = item.logs

abbrev pub build_logs_of : Option ManagedTemplateBuild → List BuildLogEntry
build_logs_of none = []
build_logs_of (some build) = build.logs

abbrev build_created_at : Option ManagedTemplateBuild → Time
build_created_at none = 0
build_created_at (some build) = build.template.created_at

abbrev pub or_logs : List BuildLogEntry → List BuildLogEntry → List BuildLogEntry
or_logs [] other = other
or_logs (entry ∷ logs) other = entry ∷ logs

unfoldable pub put_tags :
    Uuid → Time → List String → Dict String TemplateTag → Dict String TemplateTag
put_tags build_id now [] tags = tags
put_tags build_id now (tag ∷ rest) tags =
    put_tags build_id now rest
      (insert tag (record { build_id = build_id; created_at = now; tag = tag }) tags)

-- The template as it is stored: with a build id, the times that are zero are filled in.
unfoldable pub with_times : Time → Option ManagedTemplateBuild → GatewayTemplate → GatewayTemplate
with_times now build t = if trim_space t.build_id == "" then t else record t {
  created_at = if is_zero_time t.created_at then build_created_at build else t.created_at;
  updated_at = if is_zero_time t.updated_at then now else t.updated_at;
}

abbrev pub put_build :
    GatewayTemplate
    → List BuildLogEntry
    → Dict String ManagedTemplateBuild
    → Dict String ManagedTemplateBuild
put_build t logs builds =
    if trim_space t.build_id == ""
    then builds
    else insert t.build_id
        (record { template = t; logs = or_logs logs (build_logs_of (lookup t.build_id builds)) })
        builds

module _ (lib : UuidLibrary) where
  -- What the store holds of a template after `UpsertTemplate`.
  unfoldable pub upserted :
      Time
      → Option ManagedTemplate
      → GatewayTemplate
      → List String
      → List BuildLogEntry
      → ManagedTemplate
  upserted now existing t tags logs =
      let all_logs = or_logs logs (logs_of existing) in
      let t' = with_times now (lookup t.build_id (builds_of existing)) t in
      record {
        template = t';
        tags =
            put_tags (stable_template_build_uuid lib t.template_id t.build_id) now
              (normalized_tags tags) (tags_of existing);
        logs = all_logs;
        builds = put_build t' all_logs (builds_of existing);
      }

  unfoldable pub upsert_trimmed :
      Time
      → GatewayTemplate
      → List String
      → List BuildLogEntry
      → ManagementStore
      → GatewayTemplate × ManagementStore
  upsert_trimmed now t tags logs s =
      let item = upserted now (lookup t.template_id s.templates) t tags logs in
      (
        item.template,
        record s {
          templates = insert t.template_id item s.templates;
          deleted_templates = delete t.template_id s.deleted_templates;
        },
      )

  unfoldable pub upsert_template :
      Time
      → GatewayTemplate
      → List String
      → List BuildLogEntry
      → ManagementStore
      → GatewayTemplate × ManagementStore
  upsert_template now t tags logs s =
      let t' = record t { template_id = trim_space t.template_id } in
      if t'.template_id == "" then (t', s) else upsert_trimmed now t' tags logs s

  -- `AssignTemplateTags`: the id of the build, and the tags.
  unfoldable pub assign_template_tags :
      Time
      → GatewayTemplate
      → List String
      → ManagementStore
      → (Uuid × List String) × ManagementStore
  assign_template_tags now t tags s =
      let (t', s') = upsert_template now t tags [] s in
      ((stable_template_build_uuid lib t'.template_id t'.build_id, normalized_tags tags), s')

  abbrev with_uuid : String → Uuid → Dict String ManagedTemplateBuild → Option ManagedTemplateBuild
  with_uuid template_id uuid [] = none
  with_uuid template_id uuid ((id, build) ∷ builds) =
      let rest = with_uuid template_id uuid builds in
      if stable_template_build_uuid lib template_id build.template.build_id == uuid
      then some build
      else rest

  abbrev or_found :
      Option ManagedTemplateBuild → Option ManagedTemplateBuild → Option ManagedTemplateBuild
  or_found none other = other
  or_found (some build) other = some build

  unfoldable pub managed_template_build_by_id :
      String → Dict String ManagedTemplateBuild → String → Option ManagedTemplateBuild
  managed_template_build_by_id template_id builds build_id =
      let id = trim_space build_id in
      if id == "" then none else or_found (lookup id builds) (with_uuid template_id id builds)

  unfoldable pub template_build :
      GatewayTemplate → String → ManagementStore → Option ManagedTemplateBuild
  template_build t build_id s =
      managed_template_build_by_id t.template_id (builds_of (lookup t.template_id s.templates))
        build_id

abbrev template_of : Option ManagedTemplate → Option GatewayTemplate
template_of none = none
template_of (some item) = some item.template

unfoldable pub get_managed_template : String → ManagementStore → Option GatewayTemplate
get_managed_template id s = template_of (lookup id s.templates)

unfoldable pub list_managed_templates : ManagementStore → List GatewayTemplate
list_managed_templates s =
    sort_slice (λ a b. ltb a.created_at b.created_at) (map (λ e. e.1.template) s.templates)

unfoldable pub delete_template : String → ManagementStore → ManagementStore
delete_template id s = record s {
  templates = delete id s.templates;
  deleted_templates = insert id true s.deleted_templates;
}

-- `DeletedTemplateIDs()[templateID]`.
abbrev true_at : Option Bool → Bool
true_at none = false
true_at (some b) = b

unfoldable pub is_deleted_template : String → ManagementStore → Bool
is_deleted_template id s = true_at (lookup id s.deleted_templates)

unfoldable pub list_template_tags : String → ManagementStore → List TemplateTag
list_template_tags id s =
    sort_slice (λ a b. text_before a.tag b.tag) (map (λ e. e.1) (tags_of (lookup id s.templates)))

unfoldable pub remove_tags : List String → Dict String TemplateTag → Dict String TemplateTag
remove_tags [] tags = tags
remove_tags (tag ∷ rest) tags = remove_tags rest (delete tag tags)

unfoldable pub delete_template_tags :
    String → List String → ManagementStore → Bool × ManagementStore
delete_template_tags id tags s = elim (lookup id s.templates) [
  | none ↦ (false, s)
  | some item ↦ (
    true,
    record s {
      templates =
          insert id (record item { tags = remove_tags (normalized_tags tags) item.tags })
            s.templates;
    },
  )
]

unfoldable pub template_build_logs : String → ManagementStore → List BuildLogEntry
template_build_logs id s = logs_of (lookup id s.templates)

-- By the time of the update, the latest first, and then by the id of the build.
abbrev build_before : ManagedTemplateBuild → ManagedTemplateBuild → Bool
build_before a b =
    if nat_beq a.template.updated_at b.template.updated_at
    then text_before a.template.build_id b.template.build_id
    else ltb b.template.updated_at a.template.updated_at

unfoldable pub template_builds : String → ManagementStore → List ManagedTemplateBuild
template_builds id s = sort_slice build_before (map (λ e. e.1) (builds_of (lookup id s.templates)))

abbrev pub node_status_ready : String
node_status_ready = "ready"

abbrev status_of : Option String → String
status_of none = node_status_ready
status_of (some status) = if status == "" then node_status_ready else status

unfoldable pub node_status : String → ManagementStore → String
node_status id s = status_of (lookup id s.node_statuses)

unfoldable pub set_node_status : String → String → ManagementStore → ManagementStore
set_node_status id status s = record s { node_statuses = insert id status s.node_statuses }
