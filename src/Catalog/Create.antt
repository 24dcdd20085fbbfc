-- ===== src/Catalog/Create.antt =====
-- internal/gateway/gateway_callbacks.go: the handlers that create, update, rebuild and delete a
-- template. The answers are the stored template: `templateLegacy` and its kin only copy fields of it.
use e2b_local.Prelude.{
  String, Bool, false, Option, none, some, List, [], ◌∷◌, if◌then◌else◌, ◌==◌, string_eq,
  trim_space, ltb, nat_beq, ◌+◌, ◌-◌,
}
use e2b_local.Prelude.Int.{ℤ, pos, negsuc}
use e2b_local.Errors.{Error, Result, ok, err, bad_request, gateway, gateway_error_status}
use e2b_local.Types.{Time, default_envd_version}
use e2b_local.Logs.{BuildLogEntry}
use e2b_local.Names.{append_unique_strings}
use e2b_local.Images.{split_template_name_and_tags, local_template_id}
use e2b_local.Management.{GatewayTemplate, upsert_template, delete_template}
use e2b_local.Catalog.{Context, Catalog, find_template}

abbrev pub ready_status : String
ready_status = "ready"

-- `localBuildLogs` and `localBuildErrorLogs`.
unfoldable pub local_logs : Time → String → String → List BuildLogEntry
local_logs now level message =
    record { level = level; message = message; step = none; timestamp = now } ∷ []

-- A number that is given and positive, or a default.
abbrev pub positive_or : ℤ → Option ℤ → ℤ
positive_or d none = d
positive_or d (some (negsuc n)) = d
positive_or d (some (pos n)) = if ltb 0 n then pos n else d

abbrev alias_names : Option String → List String → List String
alias_names none names = names
alias_names (some alias) names =
    if trim_space alias == "" then names else append_unique_strings names (trim_space alias ∷ [])

unfoldable pub new_managed_template :
    Context
    → String
    → Option String
    → Option (List String)
    → Option ℤ
    → Option ℤ
    → GatewayTemplate × List String
unfolding split_template_name_and_tags local_template_id append_unique_strings
new_managed_template x given alias request_tags cpu_count memory_mb =
    let (name, tags) = split_template_name_and_tags x.new_name given request_tags in
    (
      record {
        template_id = local_template_id x.new_name name;
        aliases = alias_names alias [];
        names = alias_names alias (name ∷ []);
        build_count = pos 1;
        build_id = x.new_uuid;
        build_status = ready_status;
        cpu_count = positive_or (pos 1) cpu_count;
        memory_mb = positive_or (pos 512) memory_mb;
        disk_size_mb = pos 0;
        envd_version = default_envd_version;
        public = false;
        spawn_count = pos 0;
        created_at = x.now;
        updated_at = x.now;
        last_spawned_at = none;
        image_ref = "";
      },
      tags,
    )

abbrev pub save :
    Context
    → GatewayTemplate
    → List String
    → List BuildLogEntry
    → Catalog
    → Result GatewayTemplate × Catalog
save x t tags logs c =
    let (stored, s) = upsert_template x.uuids x.now t tags logs c.management in
    (ok stored, record c { management = s })

-- The fields of a `TemplateBuildRequest` that the gateway reads itself.
pub record TemplateBuildRequest : Type 0 where
  pub dockerfile : String
  pub alias : Option String
  pub cpu_count : Option ℤ
  pub memory_mb : Option ℤ

-- `BuildTemplate`, which only some runtimes have.
abbrev pub Builder : Type 0
Builder = GatewayTemplate → Result (GatewayTemplate × List BuildLogEntry)

abbrev bad_gateway : Error → Error
bad_gateway e = gateway (gateway_error_status e 502)

abbrev pub built :
    Context
    → Option Builder
    → String
    → GatewayTemplate
    → List String
    → Catalog
    → Result GatewayTemplate × Catalog
built x none message t tags c = save x t tags (local_logs x.now "info" message) c
built x (some build) message t tags c = elim (build t) [
  | err e ↦ (err (bad_gateway e), c)
  | ok (t', logs) ↦ save x t' tags logs c
]

abbrev name_or : String → Option String → String
name_or fresh none = fresh
name_or fresh (some name) = if trim_space name == "" then fresh else trim_space name

unfoldable pub default_create_template :
    Context → Option Builder → TemplateBuildRequest → Catalog → Result GatewayTemplate × Catalog
unfolding new_managed_template local_logs
default_create_template x builder req c =
    if trim_space req.dockerfile == ""
    then (err bad_request, c)
    else let (t, tags) =
        new_managed_template x (name_or x.new_name req.alias) req.alias none req.cpu_count
          req.memory_mb in
      built x builder "template build accepted by e2b-local" t tags c

unfoldable pub default_create_template_v2 :
    Context → String → Option ℤ → Option ℤ → Catalog → Result GatewayTemplate × Catalog
unfolding new_managed_template local_logs
default_create_template_v2 x alias cpu_count memory_mb c =
    if trim_space alias == ""
    then (err bad_request, c)
    else let (t, tags) = new_managed_template x alias (some alias) none cpu_count memory_mb in
      save x t tags (local_logs x.now "info" "v2 template build accepted by e2b-local") c

unfoldable pub default_create_template_v3 :
    Context
    → Option String
    → Option String
    → Option (List String)
    → Option ℤ
    → Option ℤ
    → Catalog
    → Result GatewayTemplate × Catalog
unfolding new_managed_template local_logs
default_create_template_v3 x name alias request_tags cpu_count memory_mb c =
    let (t, tags) =
      new_managed_template x (name_or (name_or x.new_name alias) name) alias request_tags cpu_count
        memory_mb in
    save x t tags (local_logs x.now "info" "v3 template build accepted by e2b-local") c

abbrev pub delete_found : Result GatewayTemplate → Catalog → Result GatewayTemplate × Catalog
delete_found (err e) c = (err e, c)
delete_found (ok t) c = (ok t, record c { management = delete_template t.template_id c.management })

unfoldable pub default_delete_template :
    Context → String → Catalog → Result GatewayTemplate × Catalog
unfolding find_template
default_delete_template x id c = delete_found (find_template x id c.management) c

abbrev update_found :
    Context → Option Bool → Result GatewayTemplate → Catalog → Result GatewayTemplate × Catalog
update_found x public (err e) c = (err e, c)
update_found x public (ok t) c =
    save x (record t { public = elim public [ none ↦ t.public | some b ↦ b ]; updated_at = x.now })
      [] [] c

unfoldable pub default_update_template_record :
    Context → String → Option Bool → Catalog → Result GatewayTemplate × Catalog
unfolding find_template
default_update_template_record x id public c =
    update_found x public (find_template x id c.management) c

abbrev or_value : ℤ → Option ℤ → ℤ
or_value old none = old
or_value old (some n) = n

-- `template.BuildCount++`.
abbrev increment : ℤ → ℤ
increment (pos n) = pos (n + 1)
increment (negsuc n) = if nat_beq n 0 then pos 0 else negsuc (n - 1)

abbrev with_alias : Option String → List String → List String
with_alias none names = names
with_alias (some alias) names = append_unique_strings names (alias ∷ [])

unfoldable pub rebuilt : Context → TemplateBuildRequest → GatewayTemplate → GatewayTemplate
unfolding append_unique_strings
rebuilt x req t = record t {
  build_count = increment t.build_count;
  build_id = x.new_uuid;
  build_status = ready_status;
  updated_at = x.now;
  cpu_count = or_value t.cpu_count req.cpu_count;
  memory_mb = or_value t.memory_mb req.memory_mb;
  aliases = with_alias req.alias t.aliases;
  names = with_alias req.alias t.names;
}

abbrev rebuild_found :
    Context
    → Option Builder
    → TemplateBuildRequest
    → Result GatewayTemplate
    → Catalog
    → Result GatewayTemplate × Catalog
rebuild_found x builder req (err e) c = (err e, c)
rebuild_found x builder req (ok t) c =
    built x builder "template rebuild accepted by e2b-local" (rebuilt x req t) [] c

unfoldable pub default_rebuild_template :
    Context
    → Option Builder
    → String
    → TemplateBuildRequest
    → Catalog
    → Result GatewayTemplate × Catalog
unfolding find_template rebuilt local_logs
default_rebuild_template x builder id req c =
    if trim_space req.dockerfile == ""
    then (err bad_request, c)
    else rebuild_found x builder req (find_template x id c.management) c
