-- ===== src/Tests/Catalogs.antt =====
-- The theorems on the handlers of templates, where the runtime lists one template.
use e2b_local.Prelude.{
  ◌*◌, ◌≡◌, refl, true, false, none, some, List, [], ◌∷◌, All, trim_space, ◌==◌, string_eq,
}
use e2b_local.Prelude.Int.{pos}
use e2b_local.Prelude.Dict.{lookup, insert, delete}
use e2b_local.Prelude.Order.{sort_slice}
use e2b_local.Errors.{ok, bad_request}
use e2b_local.Types.{second}
use e2b_local.Management.{
  GatewayTemplate, new_management_store, get_managed_template, delete_template,
  list_managed_templates,
}
use e2b_local.Management.Uploads.{FileStore, ManagedTemplateFile, template_file_key}
use e2b_local.Builds.{
  TemplateBuildManager, new_template_build_manager, reserve, new_task, is_current,
}
use e2b_local.Catalog.{
  Context, Catalog, SandboxRuntimeTemplate, gateway_template, has_id, default_list_templates,
  runtime_part, managed_part,
}
use e2b_local.Catalog.Create.{default_delete_template}
use e2b_local.Catalog.Laws.{list-delete}
use e2b_local.Catalog.Builds.{
  TemplateStep, BuildStart, failed, default_start_template_build_v2, broke, template_build_files,
  building_status, start_template, failed_build,
}
use e2b_local.Catalog.Builds.Files.{HasFile, build_files-HasFile}
use e2b_local.Catalog.Builds.Start.{start-failed}
use e2b_local.Catalog.Builds.Finish.{stored_template, after, finish-stored}

abbrev base : SandboxRuntimeTemplate
base = record {
  template_id = "base";
  names = [];
  build_count = pos 1;
  build_id = "b1";
  build_status = "ready";
  cpu_count = pos 2;
  memory_mb = pos 512;
  disk_size_mb = pos 0;
  public = true;
  spawn_count = pos 0;
  created_at = 1 * second;
  updated_at = 0;
  last_spawned_at = none;
  image_ref = "e2b/base:v1";
}

abbrev context : Context
context = record {
  now = 5 * second;
  listed = ok (base ∷ []);
  uuids = record { parse = λ s. none; new_sha1 = λ template value. value };
  new_uuid = "u1";
  new_name = "template-u2";
}

abbrev file : ManagedTemplateFile
file = record {
  template_id = "base";
  hash = "h1";
  path = "/tmp/f1";
  size = 9;
  sha256 = "ab";
  created_at = 2 * second;
}

abbrev files : FileStore
files = record { template_files = ("base/h1", file) ∷ []; template_uploads = [] }

abbrev catalog : Catalog
catalog = record {
  management = new_management_store;
  files = files;
  builds = new_template_build_manager (pos 2);
}

abbrev listed : GatewayTemplate
listed = gateway_template (5 * second) base

abbrev deleted : Catalog
deleted = record catalog { management = delete_template "base" new_management_store }

deletes : default_delete_template context "base" catalog ≡ (ok listed, deleted)
unfolding default_delete_template managed_part list_managed_templates sort_slice
    new_management_store runtime_part lookup
deletes = refl

lists : default_list_templates context deleted.management ≡ ok []
unfolding default_list_templates managed_part list_managed_templates sort_slice delete_template
    delete new_management_store runtime_part lookup insert
lists = refl

list-delete_example : has_id listed.template_id [] ≡ false
list-delete_example = list-delete context context "base" catalog deleted listed [] deletes lists

abbrev steps : List TemplateStep
steps =
    record { kind = "RUN"; files_hash = none }
    ∷ record { kind = "copy"; files_hash = some "h1" }
    ∷ []

found : template_build_files files "base" (some steps) ≡ ok (file ∷ [])
unfolding template_build_files lookup template_file_key
found = refl

build_files-HasFile_example : All (HasFile files "base") steps
build_files-HasFile_example = build_files-HasFile files "base" steps (file ∷ []) found

abbrev fresh : TemplateBuildManager
fresh = new_template_build_manager (pos 2)

abbrev running : Catalog
running = record catalog {
  builds = (reserve (record { template_id = "base"; build_id = "b2" }) fresh).1;
}

abbrev build : BuildStart
build = record {
  started = new_task (record { template_id = "base"; build_id = "b2" }) fresh;
  template = start_template context "b2" building_status listed;
  build_id = "b2";
  files = [];
  start_logs = [];
}

build_current : is_current build.started running.builds ≡ true
unfolding is_current lookup reserve new_template_build_manager insert
build_current = refl

build-named :
    (trim_space (stored_template context build (broke "no space left") [] running).template_id
      == "")
    ≡ false
unfolding failed_build gateway_template trim_space
build-named = refl

finish-stored_example :
    ((t : GatewayTemplate) × (get_managed_template
          (trim_space
            (stored_template context build (broke "no space left") [] running).template_id)
          (after context build (broke "no space left") [] running).management
        ≡ some t)
      × ((t.build_status == building_status) ≡ false))
    × (is_current build.started (after context build (broke "no space left") [] running).builds
        ≡ false)
finish-stored_example =
    finish-stored context build (broke "no space left") [] running build_current build-named

-- A step copies a file that was not uploaded.
abbrev lost : List TemplateStep
lost = record { kind = "COPY"; files_hash = some "h2" } ∷ []

starts_failed :
    default_start_template_build_v2 context true "base" "b2" (some lost) catalog
    ≡ (failed bad_request, catalog)
unfolding default_start_template_build_v2 managed_part list_managed_templates sort_slice
    new_management_store runtime_part lookup template_build_files template_file_key
starts_failed = refl

start-failed_example : catalog ≡ catalog
start-failed_example =
    start-failed context true "base" "b2" (some lost) catalog catalog bad_request starts_failed
