-- ===== src/Catalog/Builds.antt =====
-- internal/gateway/gateway_callbacks.go: the start of a template's build, what its goroutine does at the
-- end, and the status of a build.
pub mod Files
pub mod Finish
pub mod Start
use e2b_local.Prelude.{
  ℕ, String, Bool, true, false, not, ◌&&◌, ◌||◌, Option, none, some, List, [], ◌∷◌, if◌then◌else◌,
  ◌==◌, string_eq, trim_space, equal_fold,
}
use e2b_local.Prelude.Int.{ℤ}
use e2b_local.Prelude.Texts.{among}
use e2b_local.Prelude.Dict.{lookup}
use e2b_local.Errors.{
  Error, Result, ok, err, bad_request, conflict, service_unavailable, gateway, not_found,
}
use e2b_local.Types.{Time}
use e2b_local.Logs.{BuildLogEntry, append_build_logs, info_logs, response_logs}
use e2b_local.Management.{
  GatewayTemplate, UuidLibrary, ManagedTemplateBuild, upsert_template, template_build,
  template_build_logs, stable_template_build_uuid,
}
use e2b_local.Management.Uploads.{FileStore, ManagedTemplateFile, template_file}
use e2b_local.Builds.{
  TemplateBuildManager, BuildError, capacity_exhausted, already_running, manager_stopped,
  TemplateBuildTask, Reserved, TemplateBuildKey, key_eq, refused, task, reserve, is_current,
  complete,
}
use e2b_local.Catalog.{Context, Catalog, find_template}
use e2b_local.Catalog.Create.{local_logs, ready_status, save}

abbrev pub building_status : String
building_status = "building"

abbrev pub error_status : String
error_status = "error"

unfoldable pub template_build_start_error : BuildError → Error
template_build_start_error capacity_exhausted = gateway 429
template_build_start_error already_running = conflict
template_build_start_error manager_stopped = service_unavailable

-- The fields of a step that the gateway reads itself.
pub record TemplateStep : Type 0 where
  pub kind : String
  pub files_hash : Option String

-- `stringPtrValue`.
abbrev pub hash_of : Option String → String
hash_of none = ""
hash_of (some hash) = trim_space hash

abbrev pub is_copy : TemplateStep → Bool
is_copy step = equal_fold (trim_space step.kind) "COPY"

abbrev add_file :
    Option ManagedTemplateFile
    → Result (List ManagedTemplateFile)
    → Result (List ManagedTemplateFile)
add_file none rest = err bad_request
add_file (some file) (err e) = err e
add_file (some file) (ok files) = ok (file ∷ files)

-- The loop over the steps, with the set of the hashes that were seen.
unfoldable pub copied_files :
    FileStore → String → List String → List TemplateStep → Result (List ManagedTemplateFile)
unfolding template_file equal_fold trim_space
copied_files s template_id seen [] = ok []
copied_files s template_id seen (step ∷ steps) =
    let hash = hash_of step.files_hash in
    let rest = copied_files s template_id seen steps in
    let more = copied_files s template_id (hash ∷ seen) steps in
    if not (is_copy step)
    then rest
    else if hash == ""
    then err bad_request
    else if among hash seen
    then rest
    else add_file (template_file template_id hash s) more

unfoldable pub template_build_files :
    FileStore → String → Option (List TemplateStep) → Result (List ManagedTemplateFile)
unfolding copied_files
template_build_files s template_id none = ok []
template_build_files s template_id (some steps) = copied_files s template_id [] steps

abbrev mark_found :
    Context → String → String → Result GatewayTemplate → Catalog → Option Error × Catalog
mark_found x build_id message (err e) c = (some e, c)
mark_found x build_id message (ok t) c =
    if trim_space build_id == ""
    then (some bad_request, c)
    else let (stored, s) =
        upsert_template x.uuids x.now
          (record t {
            build_id = trim_space build_id;
            build_status = ready_status;
            updated_at = x.now;
          })
          [] (local_logs x.now "info" message) c.management in
      (none, record c { management = s })

unfoldable pub default_mark_template_build_ready :
    Context → String → String → String → Catalog → Option Error × Catalog
unfolding find_template local_logs
default_mark_template_build_ready x id build_id message c =
    mark_found x build_id message (find_template x id c.management) c

unfoldable pub default_start_template_build :
    Context → String → String → Catalog → Option Error × Catalog
unfolding default_mark_template_build_ready
default_start_template_build x id build_id c =
    default_mark_template_build_ready x id build_id "template build started by e2b-local" c

-- What the goroutine of a build starts with.
pub record BuildStart : Type 0 where
  pub started : TemplateBuildTask
  pub template : GatewayTemplate
  pub build_id : String
  pub files : List ManagedTemplateFile
  pub start_logs : List BuildLogEntry

-- The outcome of a start: an error, a build that is ready at once, since the runtime builds nothing, or
-- one that runs.
pub data Started : Type 0 where
  failed : Error → Started
  ready : Started
  runs : BuildStart → Started

abbrev pub start_template : Context → String → String → GatewayTemplate → GatewayTemplate
start_template x build_id status t = record t {
  build_id = build_id;
  build_status = status;
  updated_at = x.now;
}

abbrev pub start_reserved :
    Context
    → String
    → List ManagedTemplateFile
    → GatewayTemplate
    → Catalog
    → Reserved
    → Started × Catalog
start_reserved x build_id files t c (refused e) = (failed (template_build_start_error e), c)
start_reserved x build_id files t c (task started) =
    let logs = local_logs x.now "info" "v2 template build started by e2b-local" in
    let building = start_template x build_id building_status t in
    let (stored, s) = upsert_template x.uuids x.now building [] logs c.management in
    (
      runs (record {
        started = started;
        template = building;
        build_id = build_id;
        files = files;
        start_logs = logs;
      }),
      record c { management = s },
    )

abbrev pub start_with_files :
    Context
    → String
    → Result (List ManagedTemplateFile)
    → GatewayTemplate
    → Catalog
    → Started × Catalog
start_with_files x build_id (err e) t c = (failed e, c)
start_with_files x build_id (ok files) t c =
    let (reserved, builds) =
      reserve (record { template_id = t.template_id; build_id = build_id }) c.builds in
    start_reserved x build_id files t (record c { builds = builds }) reserved

abbrev pub start_found :
    Context
    → Bool
    → String
    → Option (List TemplateStep)
    → Result GatewayTemplate
    → Catalog
    → Started × Catalog
start_found x builds build_id steps (err e) c = (failed e, c)
start_found x builds build_id steps (ok t) c =
    if trim_space build_id == ""
    then (failed bad_request, c)
    else if builds
    then start_with_files x (trim_space build_id) (template_build_files c.files t.template_id steps)
        t c
    else let (stored, c') =
        save x (start_template x (trim_space build_id) ready_status t) []
          (local_logs x.now "info" "v2 template build started by e2b-local") c in
      (ready, c')

-- `builds` tells whether the runtime has `StartTemplateBuildV2`.
unfoldable pub default_start_template_build_v2 :
    Context → Bool → String → String → Option (List TemplateStep) → Catalog → Started × Catalog
unfolding find_template
default_start_template_build_v2 x builds id build_id steps c =
    start_found x builds build_id steps (find_template x id c.management) c

-- What `StartTemplateBuildV2` of the runtime gave, with its logs: a template, or an error with its
-- text, which may be a cancellation.
pub data Outcome : Type 0 where
  succeeded : GatewayTemplate → Outcome
  cancelled : Outcome
  broke : String → Outcome

abbrev or_entries : List BuildLogEntry → List BuildLogEntry → List BuildLogEntry
or_entries [] other = other
or_entries (entry ∷ logs) other = entry ∷ logs

abbrev or_text : String → String → String
or_text text other = if trim_space text == "" then other else text

unfoldable pub failed_build : Context → BuildStart → GatewayTemplate
failed_build x b = start_template x b.build_id error_status b.template

unfoldable pub finished_build : Context → BuildStart → GatewayTemplate → GatewayTemplate
finished_build x b t = record t {
  template_id = or_text t.template_id b.template.template_id;
  build_id = or_text t.build_id b.build_id;
  build_status =
      if (trim_space t.build_status == "") || (t.build_status == building_status)
      then ready_status
      else t.build_status;
  updated_at = x.now;
}

abbrev pub outcome_template : Context → BuildStart → Outcome → GatewayTemplate
outcome_template x b (succeeded t) = finished_build x b t
outcome_template x b cancelled = failed_build x b
outcome_template x b (broke message) = failed_build x b

abbrev pub outcome_logs : Context → Outcome → List BuildLogEntry → List BuildLogEntry
outcome_logs x (succeeded t) logs = logs
outcome_logs x cancelled logs =
    or_entries logs (local_logs x.now "error" "v2 template build cancelled by e2b-local")
outcome_logs x (broke message) logs = or_entries logs (local_logs x.now "error" message)

abbrev is_done : Option TemplateBuildTask → Bool
is_done none = false
is_done (some t) = t.done

-- A success after the context was cancelled counts as a cancellation.
abbrev pub checked_outcome : BuildStart → Outcome → TemplateBuildManager → Outcome
checked_outcome b (succeeded t) m =
    if is_done (lookup b.started.key m.active) then cancelled else succeeded t
checked_outcome b cancelled m = cancelled
checked_outcome b (broke message) m = broke message

-- The end of the goroutine: a build whose task is no longer the current one leaves the store, and
-- `goRun` completes the task in any case.
unfoldable pub finish_template_build_v2 :
    Context → BuildStart → Outcome → List BuildLogEntry → Catalog → Catalog
unfolding is_current complete append_build_logs
finish_template_build_v2 x b given logs c =
    let outcome = checked_outcome b given c.builds in
    let all_logs = append_build_logs (b.start_logs ∷ outcome_logs x outcome logs ∷ []) in
    let (stored, s) =
      upsert_template x.uuids x.now (outcome_template x b outcome) [] all_logs c.management in
    record c {
      management = if is_current b.started c.builds then s else c.management;
      builds = complete b.started c.builds;
    }

unfoldable pub template_build_status : GatewayTemplate → String
template_build_status t = if t.build_status == "" then ready_status else t.build_status

unfoldable pub template_build_matches : UuidLibrary → GatewayTemplate → String → Bool
unfolding stable_template_build_uuid
template_build_matches lib t given =
    let id = trim_space given in
    not (id == "")
    && ((id == t.build_id) || (id == stable_template_build_uuid lib t.template_id t.build_id))

unfoldable pub build_id_or_stable : UuidLibrary → GatewayTemplate → String → String
unfolding stable_template_build_uuid
build_id_or_stable lib t requested =
    if not (trim_space requested == "")
    then requested
    else if not (t.build_id == "")
    then t.build_id
    else stable_template_build_uuid lib t.template_id t.build_id

pub record BuildInfo : Type 0 where
  pub build_id : String
  pub log_entries : List BuildLogEntry
  pub status : String
  pub template_id : String

-- The build that a request is about, with its logs: a stored build, or the template's own one.
abbrev pub build_of :
    Context
    → Result GatewayTemplate
    → String
    → Catalog
    → Result (GatewayTemplate × List BuildLogEntry)
build_of x (err e) build_id c = err e
build_of x (ok t) build_id c = elim (template_build x.uuids t build_id c.management) [
  | some build ↦ ok (build.template, build.logs)
  | none ↦
      if template_build_matches x.uuids t build_id
      then ok (t, template_build_logs t.template_id c.management)
      else err not_found
]

abbrev id_of : Result GatewayTemplate → String
id_of (err e) = ""
id_of (ok t) = t.template_id

unfoldable pub default_get_template_build_info :
    Context → String → String → Option String → Option ℤ → Option ℤ → Catalog → Result BuildInfo
unfolding find_template info_logs template_build_status build_id_or_stable
default_get_template_build_info x id build_id level offset limit c =
    let found = find_template x id c.management in
    elim (build_of x found build_id c) [
      | err e ↦ err e
      | ok (t, logs) ↦ ok (record {
        build_id = build_id_or_stable x.uuids t build_id;
        log_entries = info_logs logs level offset limit;
        status = template_build_status t;
        template_id = id_of found;
      })
    ]

unfoldable pub default_get_template_build_logs :
    Context
    → String
    → String
    → Option String
    → Option ℤ
    → Option ℤ
    → Bool
    → Catalog
    → Result (List BuildLogEntry)
unfolding find_template response_logs
default_get_template_build_logs x id build_id level cursor limit backward c =
    elim (build_of x (find_template x id c.management) build_id c) [
      | err e ↦ err e
      | ok (t, logs) ↦ ok (response_logs logs level cursor limit backward)
    ]
