-- ===== src/Catalog/Builds/Start.antt =====
-- The outcomes of the start of a build (`defaultStartTemplateBuildV2` of
-- internal/gateway/gateway_callbacks.go).
use e2b_local.Prelude.{
  String, ◌≡◌, refl, ap, ◌∙◌, Bool, Option, List, inl, inr, Bool-cases, Option-cases, leb, length,
  trim_space, ◌==◌, string_eq,
}
use e2b_local.Prelude.Dict.{lookup}
use e2b_local.Errors.{Error, Result, ok, err}
use e2b_local.Management.{GatewayTemplate}
use e2b_local.Management.Uploads.{ManagedTemplateFile}
use e2b_local.Builds.{
  BuildError, TemplateBuildKey, TemplateBuildManager, key_eq, Reserved, refused, task, reserve,
}
use e2b_local.Catalog.{Context, Catalog, find_template}
use e2b_local.Catalog.Builds.{
  failed, TemplateStep, start_reserved, start_with_files, start_found,
  default_start_template_build_v2, template_build_files,
}

-- A reservation that is refused leaves the manager.
refused-reserve :
    (key : TemplateBuildKey) (m n : TemplateBuildManager) (e : BuildError)
    → reserve key m ≡ (refused e, n)
    → n ≡ m
unfolding reserve
refused-reserve key m n e h = elim (Bool-cases m.stopping) [
  | inl s ↦ cc (simp s at h)
  | inr s ↦ elim (Option-cases (lookup key m.active)) [
    | inr (t, there) ↦ cc (rw there at (simp s at h))
    | inl free ↦ elim (Bool-cases (leb m.max_concurrent (length m.active))) [
      | inl full ↦ cc (rw full at (rw free at (simp s at h)))
      | inr room ↦ absurd (cc (rw room at (rw free at (simp s at h))))
    ]
  ]
]

start_reserved-failed :
    (x : Context) (build_id : String) (files : List ManagedTemplateFile) (t : GatewayTemplate)
    (c after : Catalog) (r : Reserved) (e : Error)
    → start_reserved x build_id files t c r ≡ (failed e, after)
    → (after ≡ c) × ((f : BuildError) × (r ≡ refused f))
start_reserved-failed x build_id files t c after (refused f) e h = (cc h, (f, refl))
start_reserved-failed x build_id files t c after (task started) e h = absurd (cc h)

start_with_files-failed :
    (x : Context) (build_id : String) (files : Result (List ManagedTemplateFile))
    (t : GatewayTemplate) (c after : Catalog) (e : Error)
    → start_with_files x build_id files t c ≡ (failed e, after)
    → after ≡ c
start_with_files-failed x build_id (err f) t c after e h = cc h
start_with_files-failed x build_id (ok files) t c after e h =
    let key : TemplateBuildKey = record { template_id = t.template_id; build_id = build_id } in
    let out = reserve key c.builds in
    let (left, (f, refusal)) =
      start_reserved-failed x build_id files t (record c { builds = out.1 }) after out.0 e h in
    left
    ∙ ap (λ b. record c { builds = b })
        (refused-reserve key c.builds out.1 f (ap (λ r. (r, out.1)) refusal))

start_found-failed :
    (x : Context) (builds : Bool) (build_id : String) (steps : Option (List TemplateStep))
    (found : Result GatewayTemplate) (c after : Catalog) (e : Error)
    → start_found x builds build_id steps found c ≡ (failed e, after)
    → after ≡ c
start_found-failed x builds build_id steps (err f) c after e h = cc h
start_found-failed x builds build_id steps (ok t) c after e h =
    elim (Bool-cases (trim_space build_id == "")) [
      | inl b ↦ cc (rw b at h)
      | inr b ↦ elim (Bool-cases builds) [
        | inl s ↦
            start_with_files-failed x (trim_space build_id)
              (template_build_files c.files t.template_id steps) t c after e (rw (b, s) at h)
        | inr s ↦ absurd (cc (rw (b, s) at h))
      ]
    ]

-- The start of a build that fails, for whatever reason, leaves the templates, the files and the builds
-- as they were.
pub start-failed :
    (x : Context) (builds : Bool) (id build_id : String) (steps : Option (List TemplateStep))
    (c after : Catalog) (e : Error)
    → default_start_template_build_v2 x builds id build_id steps c ≡ (failed e, after)
    → after ≡ c
unfolding default_start_template_build_v2
start-failed x builds id build_id steps c after e h =
    start_found-failed x builds build_id steps (find_template x id c.management) c after e h
