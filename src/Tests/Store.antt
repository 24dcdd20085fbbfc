-- ===== src/Tests/Store.antt =====
-- The theorems on the management store and the uploads, at one template and one upload.
use e2b_local.Prelude.{
  ◌*◌, String, ◌≡◌, refl, true, false, ◌&&◌, none, some, List, [], ◌∷◌, if◌then◌else◌, ◌==◌,
  string_eq, trim_space,
}
use e2b_local.Prelude.Int.{pos}
use e2b_local.Prelude.Dict.{lookup, insert}
use e2b_local.Prelude.Texts.{among}
use e2b_local.Errors.{ok}
use e2b_local.Types.{second}
use e2b_local.Names.{normalized_tags}
use e2b_local.Management.{
  GatewayTemplate, ManagementStore, UuidLibrary, new_management_store, upsert_template,
  delete_template_tags, get_managed_template, is_deleted_template, stable_template_build_uuid,
}
use e2b_local.Management.Laws.{tag_at, tag_at-delete, get-upsert, tag_at-upsert}
use e2b_local.Management.Uploads.History.{
  step as step_upload, UploadEvent, prepares, looks, run as run_uploads, new_file_store,
  commit_once,
}
use e2b_local.Management.Uploads.{
  UploadResult, find_upload, commit_upload, FileStore, Written, refused, stored,
  create_template_file_upload, template_file_key, store_template_file_upload_reader,
}
use e2b_local.Management.Uploads.Laws.{IsLater, store_upload-IsLater}

-- A library of UUIDs that parses nothing.
abbrev uuids : UuidLibrary
uuids = record { parse = λ s. none; new_sha1 = λ template value. value }

abbrev base_id : String
base_id = "base"

abbrev base : GatewayTemplate
base = record {
  template_id = " base ";
  aliases = [];
  names = "base" ∷ [];
  build_count = pos 1;
  build_id = "b1";
  build_status = "ready";
  cpu_count = pos 2;
  memory_mb = pos 512;
  disk_size_mb = pos 1024;
  envd_version = "v1";
  public = false;
  spawn_count = pos 0;
  created_at = 0;
  updated_at = 0;
  last_spawned_at = none;
  image_ref = "e2b/base:latest";
}

abbrev after : ManagementStore
after = (upsert_template uuids (3 * second) base ("v1" ∷ "v2" ∷ []) [] new_management_store).1

tag_at-delete_example : tag_at "base" "v1" (delete_template_tags "base" ("v1" ∷ []) after).1 ≡ (
    if (base_id == base_id) && among "v1" (normalized_tags ("v1" ∷ []))
    then none
    else tag_at "base" "v1" after)
tag_at-delete_example = tag_at-delete "base" "base" "v1" ("v1" ∷ []) after

base-named : (trim_space base.template_id == "") ≡ false
unfolding trim_space
base-named = refl

get-upsert_example :
    (get_managed_template "other" (upsert_template uuids 9 base [] [] after).1 ≡ (
      if trim_space " base " == "other"
      then some (upsert_template uuids 9 base [] [] after).0
      else get_managed_template "other" after))
    × (is_deleted_template "other" (upsert_template uuids 9 base [] [] after).1
        ≡ (if trim_space " base " == "other" then false else is_deleted_template "other" after))
get-upsert_example = get-upsert uuids 9 base [] [] after base-named "other"

tag_at-upsert_example :
    tag_at (trim_space " base ") "v3" (upsert_template uuids 9 base ("v3" ∷ []) [] after).1 ≡ (
      if among "v3" (normalized_tags ("v3" ∷ []))
      then some (record {
        build_id = stable_template_build_uuid uuids (trim_space " base ") "b1";
        created_at = 9;
        tag = "v3";
      })
      else tag_at (trim_space " base ") "v3" after)
tag_at-upsert_example = tag_at-upsert uuids 9 base ("v3" ∷ []) [] after base-named "v3"

abbrev no_files : FileStore
no_files = record { template_files = []; template_uploads = [] }

abbrev waiting : FileStore
waiting = (create_template_file_upload (some "tfu_1") (1 * second) "base" "h" no_files).1

abbrev body : Written
body = record { path = "/tmp/u1"; size = 3; sha256 = "abc" }

store_upload-IsLater_example :
    IsLater waiting
      (store_template_file_upload_reader "base" "h" "tfu_1"
        (2 * second)
        (3 * second)
        (ok body)
        waiting).1
store_upload-IsLater_example =
    store_upload-IsLater "base" "h" "tfu_1" (2 * second) (3 * second) (ok body) waiting

-- Two users pass the first critical section with the same token, and one of them commits.
abbrev raced : List UploadEvent
raced =
    prepares (some "tfu_1") second "base" "h"
    ∷ looks "base" "h" "tfu_1" (2 * second)
    ∷ looks "base" "h" "tfu_1" (2 * second)
    ∷ []

abbrev won : UploadResult × FileStore
won = commit_upload "base" "h" "tfu_1" (3 * second) body (run_uploads raced new_file_store)

won-stored : won.0 ≡ stored true
unfolding commit_upload run_uploads step_upload new_file_store create_template_file_upload lookup
    insert trim_space template_file_key
won-stored = refl

abbrev meanwhile : List UploadEvent
meanwhile = prepares (some "tfu_2") (3 * second) "base" "h" ∷ []

commit_once_example :
    ((find_upload "base" "h" "tfu_1" (4 * second) (run_uploads meanwhile won.1)).0 ≡ none)
    × ((commit_upload "base" "h" "tfu_1" (4 * second) body (run_uploads meanwhile won.1)).0
        ≡ refused)
commit_once_example =
    commit_once raced meanwhile "base" "h" "tfu_1" (3 * second) body true "base" "h" (4 * second)
      body won-stored refl
