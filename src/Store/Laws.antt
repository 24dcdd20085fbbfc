-- ===== src/Store/Laws.antt =====
-- What a reader of the store sees after each operation of store.go.
use text.Mathlib.TextEquality.{eq_iff}
use mathlib.Core.Path.{subst}
use e2b_local.Prelude.{
  String, ◌≡◌, sym, Bool, true, false, Option, none, some, arith, ◌==◌, string_eq, if◌then◌else◌,
  Option-cases, inl, inr,
}
use e2b_local.Prelude.Dict.{
  lookup, delete, lookup-insert, lookup-delete, IsMap, IsMap-insert, IsMap-delete,
}
use e2b_local.Types.{SandboxRecord}
use e2b_local.Store.{SandboxStore, SandboxEntry, add_entry, set_entry, get, update, delete_record}

abbrev pub has_record : String → SandboxStore → Bool
has_record k s = elim (get k s) [ none ↦ false | some _ ↦ true ]

abbrev pub mapped : (SandboxRecord → SandboxRecord) → Option SandboxRecord → Option SandboxRecord
mapped f none = none
mapped f (some r) = some (f r)

pub get-set_entry :
    (k j : String) (e : SandboxEntry) (r : SandboxRecord) (s : SandboxStore)
    → get j (set_entry k e r s) ≡ (if k == j then some r else get j s)
unfolding get
get-set_entry k j e r s = ground (arith, lookup-insert k j (record e { stored = r }) s.sandboxes)

pub get-add_entry :
    (j : String) (r : SandboxRecord) (s : SandboxStore)
    → get j (add_entry r s) ≡ (if r.id == j then some r else get j s)
unfolding get
get-add_entry j r s =
    ground
      (arith, lookup-insert r.id j (record { address = s.next_address; stored = r }) s.sandboxes)

pub get-update :
    (k j : String) (f : SandboxRecord → SandboxRecord) (s : SandboxStore)
    → get j (update k f s).1 ≡ (if k == j then mapped f (get k s) else get j s)
unfolding update
get-update k j f s = elim (Option-cases (lookup k s.sandboxes)) [
  | inl e ↦ rw (e, update) (unfold get in ground (arith, eq_iff k j))
  | inr (a, e) ↦
      rw (e, update)
        (rw (get-set_entry k j a (f a.stored) s) (unfold get in ground (arith, eq_iff k j)))
]

pub result-update :
    (k : String) (f : SandboxRecord → SandboxRecord) (s : SandboxStore)
    → (update k f s).0 ≡ mapped f (get k s)
unfolding get update
result-update k f s = ground arith

pub get-delete :
    (k j : String) (s : SandboxStore)
    → get j (delete_record k s).1 ≡ (if k == j then none else get j s)
unfolding get delete_record
get-delete k j s = ground (arith, lookup-delete k j s.sandboxes, eq_iff k j)

pub result-delete : (k : String) (s : SandboxStore) → (delete_record k s).0 ≡ has_record k s
unfolding get delete_record
result-delete k s = ground arith

pub update_absent :
    (k : String) (f : SandboxRecord → SandboxRecord) (s : SandboxStore)
    → get k s ≡ none
    → update k f s ≡ (none, s)
unfolding get update
update_absent k f s h = ground arith

pub delete_absent :
    (k : String) (s : SandboxStore) → get k s ≡ none → delete_record k s ≡ (false, s)
unfolding get delete_record
delete_absent k s h = ground arith

-- No id stands twice in the map of the sandboxes.
pub update-once :
    (k : String) (f : SandboxRecord → SandboxRecord) (s : SandboxStore)
    → IsMap s.sandboxes
    → IsMap (update k f s).1.sandboxes
unfolding update
update-once k f s h = elim (Option-cases (lookup k s.sandboxes)) [
  | inl e ↦
      let same : (update k f s).1 ≡ s = rw (e, update) in
      subst (λ t. IsMap t.sandboxes) (sym same) h
  | inr (a, e) ↦
      let same : (update k f s).1 ≡ set_entry k a (f a.stored) s = rw (e, update) in
      subst (λ t. IsMap t.sandboxes) (sym same) (IsMap-insert k _ s.sandboxes h)
]

pub delete-once :
    (k : String) (s : SandboxStore) → IsMap s.sandboxes → IsMap (delete_record k s).1.sandboxes
unfolding delete_record
delete-once k s h = elim (Option-cases (lookup k s.sandboxes)) [
  | inl e ↦
      let same : (delete_record k s).1 ≡ s = rw (e, delete_record) in
      subst (λ t. IsMap t.sandboxes) (sym same) h
  | inr (a, e) ↦
      let same : (delete_record k s).1 ≡ record s { sandboxes = delete k s.sandboxes } =
        rw (e, delete_record) in
      subst (λ t. IsMap t.sandboxes) (sym same) (IsMap-delete k s.sandboxes h)
]
