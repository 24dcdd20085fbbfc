-- ===== src/Management/Laws.antt =====
-- What a reader of the store sees after its templates, tags and builds changed.
use mathlib.Core.Path.{subst}
use text.Mathlib.TextEquality.{eq_iff}
use e2b_local.Prelude.{
  String, ◌≡◌, refl, true, false, ◌&&◌, ==-refl, ==→eq, Option, none, some, List, [], ◌∷◌, arith,
  if◌then◌else◌, ◌==◌, string_eq, trim_space, Bool-cases, Option-cases, inl, inr,
}
use e2b_local.Prelude.Dict.{Dict, lookup, insert, delete, lookup-insert, lookup-delete}
use e2b_local.Prelude.Texts.{among}
use e2b_local.Types.{Time}
use e2b_local.Names.{normalized_tags}
use e2b_local.Logs.{BuildLogEntry}
use e2b_local.Management.{
  GatewayTemplate, TemplateTag, ManagedTemplate, ManagementStore, Uuid, UuidLibrary, upserted,
  upsert_trimmed, upsert_template, delete_template, delete_template_tags, get_managed_template,
  is_deleted_template, put_tags, remove_tags, tags_of, stable_template_build_uuid,
}

abbrev pub tag_at : String → String → ManagementStore → Option TemplateTag
tag_at id v s = lookup v (tags_of (lookup id s.templates))

abbrev new_tag : Uuid → Time → String → TemplateTag
new_tag build_id now tag = record { build_id = build_id; created_at = now; tag = tag }

lookup-put_tags :
    (build_id : Uuid) (now : Time) (v : String) (ts : List String) (tags : Dict String TemplateTag)
    → lookup v (put_tags build_id now ts tags)
      ≡ (if among v ts then some (new_tag build_id now v) else lookup v tags)
unfolding put_tags
lookup-put_tags build_id now v [] tags = refl
lookup-put_tags build_id now v (t ∷ ts) tags = ground (
  arith,
  lookup-put_tags build_id now v ts (insert t (new_tag build_id now t) tags),
  lookup-insert t v (new_tag build_id now t) tags,
  eq_iff t v,
)

lookup-remove_tags :
    (v : String) (ts : List String) (tags : Dict String TemplateTag)
    → lookup v (remove_tags ts tags) ≡ (if among v ts then none else lookup v tags)
unfolding remove_tags
lookup-remove_tags v [] tags = refl
lookup-remove_tags v (t ∷ ts) tags =
    ground (arith, lookup-remove_tags v ts (delete t tags), lookup-delete t v tags, eq_iff t v)

-- Deleting a template removes it and marks it as deleted; the other templates, and their marks, stay
-- as they were.
pub delete_template_lem :
    (id k : String) (s : ManagementStore)
    → (get_managed_template k (delete_template id s)
        ≡ (if id == k then none else get_managed_template k s))
      × (is_deleted_template k (delete_template id s)
          ≡ (if id == k then true else is_deleted_template k s))
unfolding get_managed_template delete_template is_deleted_template
delete_template_lem id k s = (
  ground (arith, lookup-delete id k s.templates, eq_iff id k),
  ground (arith, lookup-insert id k true s.deleted_templates, eq_iff id k),
)

abbrev without_tags : List String → ManagedTemplate → ManagedTemplate
without_tags ts item = record item { tags = remove_tags (normalized_tags ts) item.tags }

tag_at-delete_self :
    (id v : String) (ts : List String) (s : ManagementStore)
    → tag_at id v (delete_template_tags id ts s).1
      ≡ (if among v (normalized_tags ts) then none else tag_at id v s)
unfolding delete_template_tags
tag_at-delete_self id v ts s = elim (Option-cases (lookup id s.templates)) [
  | inl e ↦ rw (e, delete_template_tags) (unfold lookup in ground arith)
  | inr (item, e) ↦
      rw (e, delete_template_tags)
        (rw (lookup-insert id id (without_tags ts item) s.templates, ==-refl id)
          (lookup-remove_tags v (normalized_tags ts) item.tags))
]

tag_at-delete_other :
    (id k v : String) (ts : List String) (s : ManagementStore)
    → (id == k) ≡ false
    → tag_at k v (delete_template_tags id ts s).1 ≡ tag_at k v s
unfolding delete_template_tags
tag_at-delete_other id k v ts s other = elim (Option-cases (lookup id s.templates)) [
  | inl e ↦ rw (e, delete_template_tags)
  | inr (item, e) ↦
      rw (e, delete_template_tags)
        (rw (lookup-insert id k (without_tags ts item) s.templates, other) refl)
]

-- Deleting tags takes away the named tags, trimmed, and no other tag of any template.
pub tag_at-delete :
    (id k v : String) (ts : List String) (s : ManagementStore)
    → tag_at k v (delete_template_tags id ts s).1
      ≡ (if (id == k) && among v (normalized_tags ts) then none else tag_at k v s)
tag_at-delete id k v ts s = elim (Bool-cases (id == k)) [
  | inl e ↦
      subst
        (λ j.
          tag_at j v (delete_template_tags id ts s).1
          ≡ (if (id == j) && among v (normalized_tags ts) then none else tag_at j v s))
        (==→eq id k e) (rw (==-refl id) (tag_at-delete_self id v ts s))
  | inr e ↦ rw e (tag_at-delete_other id k v ts s e)
]

module _ (lib : UuidLibrary) (now : Time) (t : GatewayTemplate) (tags : List String)
    (logs : List BuildLogEntry) (s : ManagementStore)
    (named : (trim_space t.template_id == "") ≡ false) where
  abbrev pub key : String
  key = trim_space t.template_id

  -- An upsert of a template whose id is not blank stores it under its trimmed id, where a read finds what the upsert returned,
  -- unmarks it as deleted, and leaves the other templates alone.
  pub get-upsert :
      (k : String)
      → (get_managed_template k (upsert_template lib now t tags logs s).1 ≡ (
          if key == k
          then some (upsert_template lib now t tags logs s).0
          else get_managed_template k s))
        × (is_deleted_template k (upsert_template lib now t tags logs s).1
            ≡ (if key == k then false else is_deleted_template k s))
  unfolding get_managed_template upsert_template upsert_trimmed is_deleted_template
  get-upsert k = rw named (
    ground (arith, lookup-insert key k item s.templates, eq_iff key k),
    ground (arith, lookup-delete key k s.deleted_templates, eq_iff key k),
  )
    where
      item : ManagedTemplate
      item = upserted lib now (lookup key s.templates) (record t { template_id = key }) tags logs

  -- After an upsert of a template whose id is not blank, each of its tags points to the build of the template, at the time of the upsert,
  -- and the tags that it does not name stay as they were.
  pub tag_at-upsert :
      (v : String)
      → tag_at key v (upsert_template lib now t tags logs s).1 ≡ (
          if among v (normalized_tags tags)
          then some (new_tag (stable_template_build_uuid lib key t.build_id) now v)
          else tag_at key v s)
  unfolding upsert_template upsert_trimmed upserted
  tag_at-upsert v =
      rw (named, lookup-insert key key item s.templates, ==-refl key)
        (lookup-put_tags (stable_template_build_uuid lib key t.build_id) now v
          (normalized_tags tags) (tags_of (lookup key s.templates)))
    where
      item : ManagedTemplate
      item = upserted lib now (lookup key s.templates) (record t { template_id = key }) tags logs
