-- ===== src/Catalog/Laws.antt =====
-- The list of templates after a deletion (internal/gateway/gateway_callbacks.go).
use text.Mathlib.TextEquality.{eq_iff}
use e2b_local.Prelude.{
  String, ◌≡◌, refl, ◌∙◌, true, false, List, [], ◌∷◌, arith, inl, inr, Bool-cases, ◌==◌, string_eq,
  ==-refl,
}
use e2b_local.Errors.{Result, ok, err}
use e2b_local.Management.{
  GatewayTemplate, ManagementStore, is_deleted_template, delete_template, list_managed_templates,
}
use e2b_local.Management.Laws.{delete_template_lem}
use e2b_local.Catalog.{
  Context, Catalog, SandboxRuntimeTemplate, runtime_part, managed_part, put_template, has_id,
  gateway_template, default_list_templates, find_template, both_parts,
}
use e2b_local.Catalog.Create.{default_delete_template, delete_found}
use e2b_local.Types.{Time}

has_id-put_template :
    (id : String) (t : GatewayTemplate) (us : List GatewayTemplate)
    → (t.template_id == id) ≡ false
    → has_id id us ≡ false
    → has_id id (put_template t us) ≡ false
unfolding put_template
has_id-put_template id t [] h k = rw h refl
has_id-put_template id t (u ∷ us) h k = ground (arith, has_id-put_template id t us, h, k)

-- The templates of a deleted id are in neither part of the list.
module _ (s : ManagementStore) (id : String) (gone : is_deleted_template id s ≡ true) where
  has_id-runtime_part :
      (now : Time) (ts : List SandboxRuntimeTemplate) → has_id id (runtime_part now s ts) ≡ false
  unfolding runtime_part gateway_template
  has_id-runtime_part now [] = refl
  has_id-runtime_part now (t ∷ ts) =
      ground (arith, has_id-runtime_part now ts, gone, eq_iff t.template_id id)

  has_id-managed_part :
      (ts result : List GatewayTemplate)
      → has_id id result ≡ false
      → has_id id (managed_part s ts result) ≡ false
  unfolding managed_part
  has_id-managed_part [] result h = h
  has_id-managed_part (t ∷ ts) result h = elim (Bool-cases (is_deleted_template t.template_id s)) [
    | inl e ↦ rw e (has_id-managed_part ts result h)
    | inr e ↦
        let other : (t.template_id == id) ≡ false =
          ground (arith, e, gone, eq_iff t.template_id id) in
        rw e
          (has_id-managed_part ts (put_template t result) (has_id-put_template id t result other h))
  ]

  has_id-both_parts :
      (now : Time) (listed : Result (List SandboxRuntimeTemplate)) (ts : List GatewayTemplate)
      → both_parts now s listed ≡ ok ts
      → has_id id ts ≡ false
  has_id-both_parts now (err e) ts h = absurd (cc h)
  has_id-both_parts now (ok found) ts h =
      let same : managed_part s (list_managed_templates s) (runtime_part now s found) ≡ ts = cc h in
      rw (← same) (
        has_id-managed_part (list_managed_templates s) (runtime_part now s found)
          (has_id-runtime_part now found))

deleted-gone :
    (found : Result GatewayTemplate) (c after : Catalog) (t : GatewayTemplate)
    → delete_found found c ≡ (ok t, after)
    → is_deleted_template t.template_id after.management ≡ true
deleted-gone (err e) c after t h = absurd (cc h)
deleted-gone (ok u) c after t h =
    let same : u ≡ t = cc h in
    let next : record c { management = delete_template u.template_id c.management } ≡ after =
      cc h in
    rw (← next, ← same)
      ((delete_template_lem u.template_id u.template_id c.management).1
        ∙ rw (==-refl u.template_id) refl)

-- The listing of the templates from the state that a deletion leaves does not have the deleted id,
-- whatever the runtime still lists.
pub list-delete :
    (x y : Context) (given : String) (c after : Catalog) (t : GatewayTemplate)
    (ts : List GatewayTemplate)
    → default_delete_template x given c ≡ (ok t, after)
    → default_list_templates y after.management ≡ ok ts
    → has_id t.template_id ts ≡ false
unfolding default_delete_template default_list_templates
list-delete x y given c after t ts deleted listed =
    has_id-both_parts after.management t.template_id
      (deleted-gone (find_template x given c.management) c after t deleted) y.now y.listed ts listed
