-- ===== src/Store.antt =====
-- internal/gateway/store.go: `SandboxStore`, a map from ids to entries. An entry keeps its address
-- for as long as it stands in the map: this is the pointer that `lockSandbox` compares. A record is
-- a value, so `clone` is the identity.
pub mod Laws
pub mod Invariant
pub mod Locking
use e2b_local.Prelude.{
  ℕ, suc, String, Bool, true, false, Option, none, some, List, [], map, ltb, if◌then◌else◌, ◌==◌,
  string_eq, trim_space,
}
use e2b_local.Prelude.Dict.{Dict, lookup, insert, delete}
use e2b_local.Prelude.Order.{sort_slice}
use e2b_local.Errors.{Result, ok, err, Error, plain}
use e2b_local.Types.{
  Time, SandboxRecord, SandboxRuntimeInfo, SandboxTimeoutAction, is_zero_time, running, normalize,
  default_sandbox_end_at,
}
use e2b_local.Types.Merge.{or_text, merge_sandbox_record_for_cache}

pub record SandboxEntry : Type 0 where
  pub address : ℕ
  pub stored : SandboxRecord

pub record SandboxStore : Type 0 where
  pub sandboxes : Dict String SandboxEntry
  pub next_address : ℕ

unfoldable pub new_sandbox_store : SandboxStore
new_sandbox_store = record { sandboxes = []; next_address = 0 }

-- `&sandboxEntry{record: record}`, put into the map.
abbrev pub add_entry : SandboxRecord → SandboxStore → SandboxStore
add_entry r s = record s {
  sandboxes = insert r.id (record { address = s.next_address; stored = r }) s.sandboxes;
  next_address = suc s.next_address;
}

-- The assignment `entry.record = record`.
abbrev pub set_entry : String → SandboxEntry → SandboxRecord → SandboxStore → SandboxStore
set_entry id e r s = record s { sandboxes = insert id (record e { stored = r }) s.sandboxes }

-- The defaults for a record that is new to the store.
unfoldable pub with_defaults : Time → SandboxRecord → SandboxRecord
unfolding default_sandbox_end_at
with_defaults now r =
    let created = if is_zero_time r.created_at then now else r.created_at in
    record r {
      created_at = created;
      end_at = if is_zero_time r.end_at then default_sandbox_end_at created else r.end_at;
      state = or_text r.state running;
    }

unfoldable pub with_envd_url : SandboxRecord → SandboxRecord
with_envd_url r = record r { envd_url = or_text r.envd_url r.runtime_info.envd_url }

abbrev pub with_action : Option SandboxTimeoutAction → SandboxRecord → Result SandboxRecord
with_action none r = err (plain "unsupported sandbox timeout action")
with_action (some a) r = ok (record r { on_timeout = a })

-- `newSandboxID` may fail: then the record has no id.
abbrev pub with_id : Option String → SandboxRecord → Result SandboxRecord
with_id none r = if r.id == "" then err (plain "generate sandbox id") else ok r
with_id (some fresh) r = if r.id == "" then ok (record r { id = fresh }) else ok r

abbrev pub create_checked :
    Result SandboxRecord → SandboxStore → Result SandboxRecord × SandboxStore
create_checked (err e) s = (err e, s)
create_checked (ok r) s = elim (lookup r.id s.sandboxes) [
  | none ↦ (ok r, add_entry r s)
  | some _ ↦ (err (plain "sandbox already exists"), s)
]

-- What `Create` makes of a record before it takes the lock.
unfoldable pub prepare : Time → Result SandboxRecord → Result SandboxRecord
unfolding with_defaults with_envd_url normalize
prepare now (err e) = err e
prepare now (ok r) = with_action (normalize r.on_timeout) (with_envd_url (with_defaults now r))

unfoldable pub create :
    Option String → Time → SandboxRecord → SandboxStore → Result SandboxRecord × SandboxStore
unfolding prepare
create fresh now r s = create_checked (prepare now (with_id fresh r)) s

abbrev put_entry : Option SandboxEntry → SandboxRecord → SandboxStore → SandboxStore
put_entry none r s = add_entry r s
put_entry (some e) r s = set_entry r.id e r s

abbrev finish_upsert :
    Option SandboxEntry → Result SandboxRecord → SandboxStore → Result SandboxRecord × SandboxStore
finish_upsert entry (err e) s = (err e, s)
finish_upsert entry (ok r) s = (ok r, put_entry entry r s)

abbrev merged : Time → Option SandboxEntry → SandboxRecord → SandboxRecord
merged now none r = with_defaults now r
merged now (some e) r = merge_sandbox_record_for_cache e.stored r

unfoldable pub upsert : Time → SandboxRecord → SandboxStore → Result SandboxRecord × SandboxStore
unfolding with_defaults with_envd_url normalize trim_space merge_sandbox_record_for_cache
upsert now r s =
    if trim_space r.id == ""
    then (err (plain "sandbox id is required"), s)
    else let entry = lookup r.id s.sandboxes in
      let r' = merged now entry (with_envd_url r) in
      finish_upsert entry (with_action (normalize r'.on_timeout) r') s

-- `sort.Slice` by `CreatedAt.Before`.
abbrev pub created_before : SandboxRecord → SandboxRecord → Bool
created_before a b = ltb a.created_at b.created_at

unfoldable pub list : SandboxStore → List SandboxRecord
list s = sort_slice created_before (map (λ e. e.1.stored) s.sandboxes)

abbrev stored_of : Option SandboxEntry → Option SandboxRecord
stored_of none = none
stored_of (some e) = some e.stored

unfoldable pub get : String → SandboxStore → Option SandboxRecord
get id s = stored_of (lookup id s.sandboxes)

-- What `lockSandbox` returns where nobody else holds the entry's lock.
unfoldable pub lock_sandbox : String → SandboxStore → Option SandboxEntry
lock_sandbox id s = lookup id s.sandboxes

unfoldable pub delete_record : String → SandboxStore → Bool × SandboxStore
delete_record id s = elim (lookup id s.sandboxes) [
  | none ↦ (false, s)
  | some _ ↦ (true, record s { sandboxes = delete id s.sandboxes })
]

-- The shape of the four setters: they change the record of an entry that is there.
unfoldable pub update :
    String → (SandboxRecord → SandboxRecord) → SandboxStore → Option SandboxRecord × SandboxStore
update id f s = elim (lookup id s.sandboxes) [
  | none ↦ (none, s)
  | some e ↦ (some (f e.stored), set_entry id e (f e.stored) s)
]

abbrev pub put_state : String → SandboxRecord → SandboxRecord
put_state state r = record r { state = state }

abbrev pub put_end_at : Time → SandboxRecord → SandboxRecord
put_end_at end_at r = record r { end_at = end_at }

abbrev pub later_end_at : Time → SandboxRecord → SandboxRecord
later_end_at end_at r = record r { end_at = if ltb end_at r.end_at then r.end_at else end_at }

abbrev pub put_runtime : String → SandboxRuntimeInfo → Time → SandboxRecord → SandboxRecord
put_runtime state info end_at r = record r {
  state = state;
  runtime_info = info;
  envd_url = info.envd_url;
  end_at = if is_zero_time end_at then r.end_at else end_at;
}

unfoldable pub set_state : String → String → SandboxStore → Option SandboxRecord × SandboxStore
unfolding update
set_state id state = update id (put_state state)

unfoldable pub set_end_at : String → Time → SandboxStore → Option SandboxRecord × SandboxStore
unfolding update
set_end_at id end_at = update id (put_end_at end_at)

unfoldable pub extend_end_at : String → Time → SandboxStore → Option SandboxRecord × SandboxStore
unfolding update
extend_end_at id end_at = update id (later_end_at end_at)

unfoldable pub set_state_runtime_info_and_end_at :
    String → String → SandboxRuntimeInfo → Time → SandboxStore → Option SandboxRecord × SandboxStore
unfolding update
set_state_runtime_info_and_end_at id state info end_at = update id (put_runtime state info end_at)

unfoldable pub set_state_and_runtime_info :
    String → String → SandboxRuntimeInfo → SandboxStore → Option SandboxRecord × SandboxStore
unfolding set_state_runtime_info_and_end_at
set_state_and_runtime_info id state info = set_state_runtime_info_and_end_at id state info 0
