-- ===== src/Catalog/Tags.antt =====
-- internal/gateway/gateway_callbacks.go: the handlers of the tags of a template, and the permit to
-- upload a file of it.
use e2b_local.Prelude.{
  String, Bool, true, false, Option, none, some, List, [], ◌∷◌, if◌then◌else◌, ◌==◌, string_eq,
  trim_space,
}
use e2b_local.Errors.{Error, Result, ok, err, bad_request, not_found, gateway}
use e2b_local.Names.{normalized_tags}
use e2b_local.Images.{docker_image_tag}
use e2b_local.Management.{
  GatewayTemplate, Uuid, TemplateTag, upsert_template, assign_template_tags, delete_template_tags,
  list_template_tags, stable_template_build_uuid,
}
use e2b_local.Management.Uploads.{create_template_file_upload, template_file_present}
use e2b_local.Catalog.{Context, Catalog, find_template, find_template_by_tagged_name}

abbrev assign_found :
    Context → List String → Result GatewayTemplate → Catalog → Result (Uuid × List String) × Catalog
assign_found x tags (err e) c = (err e, c)
assign_found x tags (ok t) c =
    let (assigned, s) = assign_template_tags x.uuids x.now t tags c.management in
    (ok assigned, record c { management = s })

abbrev no_tags : List String → Bool
no_tags [] = true
no_tags (tag ∷ tags) = false

unfoldable pub default_assign_template_tags :
    Context → String → List String → Catalog → Result (Uuid × List String) × Catalog
unfolding normalized_tags find_template_by_tagged_name
default_assign_template_tags x target request_tags c =
    let tags = normalized_tags request_tags in
    if trim_space target == ""
    then (err bad_request, c)
    else if no_tags tags
    then (err bad_request, c)
    else assign_found x tags (find_template_by_tagged_name x target c.management) c

-- The template is stored first, so that one which only the runtime knew has an entry.
abbrev delete_tags_found :
    Context → List String → Result GatewayTemplate → Catalog → Option Error × Catalog
delete_tags_found x tags (err e) c = (some e, c)
delete_tags_found x tags (ok t) c =
    let (stored, s) = upsert_template x.uuids x.now t [] [] c.management in
    let (deleted, s') = delete_template_tags t.template_id tags s in
    (if deleted then none else some not_found, record c { management = s' })

unfoldable pub default_delete_template_tags :
    Context → String → List String → Catalog → Option Error × Catalog
unfolding normalized_tags find_template_by_tagged_name
default_delete_template_tags x name request_tags c =
    let tags = normalized_tags request_tags in
    if trim_space name == ""
    then (some bad_request, c)
    else if no_tags tags
    then (some bad_request, c)
    else delete_tags_found x tags (find_template_by_tagged_name x name c.management) c

abbrev tags_or_image : Context → GatewayTemplate → List TemplateTag → List TemplateTag
tags_or_image x t (tag ∷ tags) = tag ∷ tags
tags_or_image x t [] =
    let tag = docker_image_tag t.image_ref in
    if tag == ""
    then []
    else record {
      build_id = stable_template_build_uuid x.uuids t.template_id t.build_id;
      created_at = t.created_at;
      tag = tag;
    }
      ∷ []

unfoldable pub default_list_template_tags : Context → String → Catalog → Result (List TemplateTag)
unfolding find_template docker_image_tag stable_template_build_uuid list_template_tags
default_list_template_tags x id c = elim (find_template x id c.management) [
  | err e ↦ err e
  | ok t ↦ ok (tags_or_image x t (list_template_tags t.template_id c.management))
]

-- The answer of a permit: whether the file is there already, and the token that its URL carries. The
-- URL is known only inside a request.
abbrev upload_found :
    Context
    → Option String
    → Bool
    → String
    → Result GatewayTemplate
    → Catalog
    → Result (Bool × String) × Catalog
upload_found x secret in_request hash (err e) c = (err e, c)
upload_found x secret in_request hash (ok t) c =
    let (made, files) = create_template_file_upload secret x.now t.template_id hash c.files in
    let c' = record c { files = files } in
    elim made [
      | err e ↦ (err e, c')
      | ok token ↦ (
        if in_request
            then ok (template_file_present t.template_id hash files, token)
            else err (gateway 500),
        c',
      )
    ]

unfoldable pub default_get_template_file_upload :
    Context → Option String → Bool → String → String → Catalog → Result (Bool × String) × Catalog
unfolding find_template
default_get_template_file_upload x secret in_request id hash c =
    if trim_space hash == ""
    then (err bad_request, c)
    else upload_found x secret in_request hash (find_template x id c.management) c
