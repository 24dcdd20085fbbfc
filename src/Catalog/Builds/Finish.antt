-- ===== src/Catalog/Builds/Finish.antt =====
-- What the end of a build leaves in the store (`startTemplateBuildV2` of
-- internal/gateway/gateway_callbacks.go).
use e2b_local.Prelude.{
  String, ◌≡◌, refl, true, false, Option, some, List, [], ◌∷◌, ap, ◌∙◌, arith, inl, inr, Bool-cases,
  ◌==◌, string_eq, trim_space, ◌||◌, ==-refl,
}
use e2b_local.Types.{Time}
use e2b_local.Logs.{BuildLogEntry, append_build_logs}
use e2b_local.Management.{
  GatewayTemplate, ManagedTemplateBuild, ManagementStore, UuidLibrary, with_times, upsert_template,
  upsert_trimmed, upserted, get_managed_template,
}
use e2b_local.Management.Laws.{get-upsert}
use e2b_local.Builds.{TemplateBuildManager, TemplateBuildTask, key_eq, is_current, complete}
use e2b_local.Builds.Laws.{lookup-complete}
use e2b_local.Catalog.{Context, Catalog}
use e2b_local.Catalog.Builds.{
  BuildStart, Outcome, succeeded, cancelled, broke, outcome_template, outcome_logs, checked_outcome,
  finished_build, failed_build, finish_template_build_v2, building_status,
}

with_times-status :
    (now : Time) (build : Option ManagedTemplateBuild) (t : GatewayTemplate)
    → (with_times now build t).build_status ≡ t.build_status
unfolding with_times
with_times-status now build t = elim (Bool-cases (trim_space t.build_id == "")) [
  | inl e ↦ rw e refl
  | inr e ↦ rw e refl
]

upsert-status :
    (lib : UuidLibrary) (now : Time) (t : GatewayTemplate) (tags : List String)
    (logs : List BuildLogEntry) (s : ManagementStore)
    → (upsert_template lib now t tags logs s).0.build_status ≡ t.build_status
unfolding upsert_template upsert_trimmed upserted
upsert-status lib now t tags logs s = elim (Bool-cases (trim_space t.template_id == "")) [
  | inl e ↦ rw e refl
  | inr e ↦ rw e (with_times-status now _ (record t { template_id = trim_space t.template_id }))
]

outcome-status :
    (x : Context) (b : BuildStart) (o : Outcome)
    → ((outcome_template x b o).build_status == building_status) ≡ false
unfolding finished_build failed_build
outcome-status x b (succeeded t) =
    elim (Bool-cases ((trim_space t.build_status == "") || (t.build_status == building_status))) [
      | inl e ↦ rw e refl
      | inr e ↦ rw e (ground (arith, e))
    ]
outcome-status x b cancelled = refl
outcome-status x b (broke message) = refl

completed-not_current :
    (t : TemplateBuildTask) (m : TemplateBuildManager)
    → is_current t m ≡ true
    → is_current t (complete t m) ≡ false
unfolding is_current
completed-not_current t m h = rw (lookup-complete t t.key m h, ==-refl t.key) refl

module _ (x : Context) (b : BuildStart) (given : Outcome) (logs : List BuildLogEntry)
    (c : Catalog) where
  abbrev pub after : Catalog
  after = finish_template_build_v2 x b given logs c

  abbrev pub stored_template : GatewayTemplate
  stored_template = outcome_template x b (checked_outcome b given c.builds)

  -- A build that was replaced or released leaves every template as it was.
  pub finish-stale : is_current b.started c.builds ≡ false → after.management ≡ c.management
  unfolding finish_template_build_v2
  finish-stale h = rw h refl

  -- When the current build of a template ends, with success, an error or cancelled, and the template that
  -- it gives has an id, then the store has this template, with a status that is not `building`, and the
  -- build is no longer the current one.
  pub finish-stored :
      is_current b.started c.builds ≡ true
      → (trim_space stored_template.template_id == "") ≡ false
      → ((t : GatewayTemplate) × (get_managed_template
              (trim_space stored_template.template_id)
              after.management
            ≡ some t)
          × ((t.build_status == building_status) ≡ false))
        × (is_current b.started after.builds ≡ false)
  unfolding finish_template_build_v2
  finish-stored h named =
      let all_logs =
        append_build_logs
          (b.start_logs ∷ outcome_logs x (checked_outcome b given c.builds) logs ∷ []) in
      let key = trim_space stored_template.template_id in
      let out = upsert_template x.uuids x.now stored_template [] all_logs c.management in
      (
        (
          out.0,
          rw h (
              (get-upsert x.uuids x.now stored_template [] all_logs c.management named key).0
              ∙ rw (==-refl key) refl),
          ap (λ status. status == building_status)
                (upsert-status x.uuids x.now stored_template [] all_logs c.management)
              ∙ outcome-status x b (checked_outcome b given c.builds),
        ),
        completed-not_current b.started c.builds h,
      )
