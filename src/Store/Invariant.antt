-- ===== src/Store/Invariant.antt =====
-- The well-formedness of the records of the store, and that each operation of store.go keeps it.
use text.Mathlib.TextEquality.{eq_iff}
use e2b_local.Prelude.{
  ◌<◌, String, ◌≡◌, refl, ◌⊎◌, false, Option, none, some, arith, ◌==◌, string_eq, Bool-cases,
  Option-cases, inl, inr,
}
use e2b_local.Prelude.Dict.{lookup, IsMap, IsMap-insert}
use e2b_local.Errors.{Error, Result, ok, err, plain}
use e2b_local.Types.{
  Time, SandboxRecord, SandboxRuntimeInfo, SandboxTimeoutAction, normalize, running,
  timeout_action_kill, timeout_action_pause, default_sandbox_end_at,
}
use e2b_local.Store.{
  SandboxStore, add_entry, create, create_checked, prepare, with_id, get, update, delete_record,
  put_state, put_end_at, later_end_at, put_runtime, with_defaults, with_envd_url, with_action,
}
use e2b_local.Store.Laws.{update-once, delete-once, mapped, get-update, get-delete, get-add_entry}

-- The record stored at `k` carries that id, has a deadline, and its timeout action is normalized.
pub record IsGoodRecord (k : String) (r : SandboxRecord) : Type 0 where
  pub keyed : r.id ≡ k
  pub named : (r.id == "") ≡ false
  pub ended : 0 < r.end_at
  pub normal : normalize r.on_timeout ≡ some r.on_timeout

pub record IsGood (s : SandboxStore) : Type 0 where
  pub at : (k : String) (r : SandboxRecord) → get k s ≡ some r → IsGoodRecord k r
  pub once : IsMap s.sandboxes

-- A change of a record that keeps it good.
abbrev pub KeepsGood : (SandboxRecord → SandboxRecord) → Type 0
KeepsGood f = (k : String) (r : SandboxRecord) → IsGoodRecord k r → IsGoodRecord k (f r)

pub put_state-KeepsGood : (state : String) → KeepsGood (put_state state)
put_state-KeepsGood state k r g = record {
  keyed = g.keyed;
  named = g.named;
  ended = g.ended;
  normal = g.normal;
}

pub put_end_at-KeepsGood : (t : Time) → 0 < t → KeepsGood (put_end_at t)
put_end_at-KeepsGood t h k r g = record {
  keyed = g.keyed;
  named = g.named;
  ended = h;
  normal = g.normal;
}

pub later_end_at-KeepsGood : (t : Time) → KeepsGood (later_end_at t)
later_end_at-KeepsGood t k r g = record {
  keyed = g.keyed;
  named = g.named;
  ended = ground (arith, g.ended);
  normal = g.normal;
}

pub put_runtime-KeepsGood :
    (state : String) (info : SandboxRuntimeInfo) (t : Time) → KeepsGood (put_runtime state info t)
put_runtime-KeepsGood state info t k r g = record {
  keyed = g.keyed;
  named = g.named;
  ended = ground (arith, g.ended);
  normal = g.normal;
}

mapped-some :
    (f : SandboxRecord → SandboxRecord) (o : Option SandboxRecord) (r : SandboxRecord)
    → mapped f o ≡ some r
    → (q : SandboxRecord) × (o ≡ some q) × (f q ≡ r)
mapped-some f none r h = cc
mapped-some f (some q) r h = (q, refl, cc)

pub update-IsGood :
    (k : String) (f : SandboxRecord → SandboxRecord) (s : SandboxStore)
    → KeepsGood f
    → IsGood s
    → IsGood (update k f s).1
update-IsGood k f s keeps g = record {
  at = λ j r h. elim (Bool-cases (k == j)) [
    | inl e ↦
        let (q, found, same) = mapped-some f (get k s) r (rw (get-update k j f s, e) at h) in
        rw (← (eq_iff k j).0 e, ← same) (keeps k q (g.at k q found))
    | inr e ↦ g.at j r (rw (get-update k j f s, e) at h)
  ];
  once = update-once k f s g.once;
}

pub delete-IsGood : (k : String) (s : SandboxStore) → IsGood s → IsGood (delete_record k s).1
delete-IsGood k s g = record {
  at = λ j r h. elim (Bool-cases (k == j)) [
    | inl e ↦ absurd (cc (rw (get-delete k j s, e) at h))
    | inr e ↦ g.at j r (rw (get-delete k j s, e) at h)
  ];
  once = delete-once k s g.once;
}

pub add_entry-IsGood :
    (r : SandboxRecord) (s : SandboxStore) → IsGoodRecord r.id r → IsGood s → IsGood (add_entry r s)
add_entry-IsGood r s new g = record {
  at = λ j q h. elim (Bool-cases (r.id == j)) [
    | inl e ↦
        let same : r ≡ q = cc (rw (get-add_entry j r s, e) at h) in
        rw (← (eq_iff r.id j).0 e, ← same) new
    | inr e ↦ g.at j q (rw (get-add_entry j r s, e) at h)
  ];
  once = IsMap-insert r.id _ s.sandboxes g.once;
}

pub normalize-cases :
    (a b : SandboxTimeoutAction)
    → normalize a ≡ some b
    → (b ≡ timeout_action_kill) ⊎ (b ≡ timeout_action_pause)
unfolding normalize
normalize-cases a b h = ground arith

-- An action that `Normalize` returns is a fixed point of it.
pub normalize_idem : (a b : SandboxTimeoutAction) → normalize a ≡ some b → normalize b ≡ some b
normalize_idem a b h = elim (normalize-cases a b h) [
  | inl e ↦ rw e (unfold normalize in refl)
  | inr e ↦ rw e (unfold normalize in refl)
]

with_action-ok :
    (o : Option SandboxTimeoutAction) (r q : SandboxRecord)
    → with_action o r ≡ ok q
    → (a : SandboxTimeoutAction) × (o ≡ some a) × (record r { on_timeout = a } ≡ q)
with_action-ok none r q h = cc
with_action-ok (some a) r q h = (a, refl, cc)

-- What `Create` stores is good, if the clock has started and the id is not empty.
prepare-IsGoodRecord :
    (now : Time) (r q : SandboxRecord)
    → 0 < now
    → (r.id == "") ≡ false
    → prepare now (ok r) ≡ ok q
    → IsGoodRecord q.id q
unfolding prepare
prepare-IsGoodRecord now r q started named h =
    let p : SandboxRecord = with_envd_url (with_defaults now r) in
    let (a, normal, same) = with_action-ok (normalize r.on_timeout) p q h in
    rw (← same) (record {
      keyed = refl;
      named = named;
      ended = unfold with_defaults with_envd_url default_sandbox_end_at in ground arith;
      normal = normalize_idem r.on_timeout a normal;
    })

prepare-running :
    (now : Time) (r q : SandboxRecord)
    → r.state ≡ running
    → prepare now (ok r) ≡ ok q
    → q.state ≡ running
unfolding prepare
prepare-running now r q alive h =
    let p : SandboxRecord = with_envd_url (with_defaults now r) in
    let (a, normal, same) = with_action-ok (normalize r.on_timeout) p q h in
    rw (← same) (unfold with_defaults with_envd_url in rw alive refl)

abbrev pub IsNamed : Option String → Type 0
IsNamed none = Unit {0}
IsNamed (some id) = (id == "") ≡ false

with_id-named :
    (fresh : Option String) (r q : SandboxRecord)
    → IsNamed fresh
    → with_id fresh r ≡ ok q
    → (q.id == "") ≡ false
with_id-named none r q h e = elim (Bool-cases (r.id == "")) [
  | inl t ↦ absurd (cc (rw t at e))
  | inr f ↦ let same : r ≡ q = cc (rw f at e) in rw (← same) f
]
with_id-named (some id) r q h e = elim (Bool-cases (r.id == "")) [
  | inl t ↦ let same : record r { id = id } ≡ q = cc (rw t at e) in rw (← same) h
  | inr f ↦ let same : r ≡ q = cc (rw f at e) in rw (← same) f
]

with_id-running :
    (fresh : Option String) (r q : SandboxRecord)
    → with_id fresh r ≡ ok q
    → r.state ≡ running
    → q.state ≡ running
with_id-running none r q e alive = elim (Bool-cases (r.id == "")) [
  | inl t ↦ absurd (cc (rw t at e))
  | inr f ↦ let same : r ≡ q = cc (rw f at e) in rw (← same) alive
]
with_id-running (some id) r q e alive = elim (Bool-cases (r.id == "")) [
  | inl t ↦ let same : record r { id = id } ≡ q = cc (rw t at e) in rw (← same) alive
  | inr f ↦ let same : r ≡ q = cc (rw f at e) in rw (← same) alive
]

Result-cases : {A : Type 0} (r : Result A) → ((e : Error) × (r ≡ err e)) ⊎ ((a : A) × (r ≡ ok a))
Result-cases (err e) = inl (e, refl)
Result-cases (ok a) = inr (a, refl)

-- `Create` fails and leaves the store, or adds a good record under an id that was free.
abbrev pub Creates : SandboxRecord → SandboxStore → Result SandboxRecord × SandboxStore → Type 0
Creates r s out =
    ((e : Error) × (out ≡ (err e, s)))
    ⊎ ((q : SandboxRecord) × (out ≡ (ok q, add_entry q s))
        × (get q.id s ≡ none)
        × IsGoodRecord q.id q
        × (r.state ≡ running → q.state ≡ running))

create_checked-Creates :
    (q : SandboxRecord) (s : SandboxStore)
    → (r : SandboxRecord) → IsGoodRecord q.id q
    → (r.state ≡ running → q.state ≡ running)
    → Creates r s (create_checked (ok q) s)
create_checked-Creates q s r good alive = elim (Option-cases (lookup q.id s.sandboxes)) [
  | inl e ↦ inr (q, rw (e, create_checked), unfold get in rw e, good, alive)
  | inr (a, e) ↦ inl (plain "sandbox already exists", rw (e, create_checked))
]

pub create-Creates :
    (fresh : Option String) (now : Time) (r : SandboxRecord) (s : SandboxStore)
    → IsNamed fresh
    → 0 < now
    → Creates r s (create fresh now r s)
unfolding create
create-Creates fresh now r s named started = elim (Result-cases (with_id fresh r)) [
  | inl (e, h) ↦ inl (e, rw h (unfold prepare in refl))
  | inr (q, h) ↦ elim (Result-cases (prepare now (ok q))) [
    | inl (e, p) ↦ inl (e, rw (h, p))
    | inr (c, p) ↦
        rw (h, p)
          (create_checked-Creates c s r
            (prepare-IsGoodRecord now q c started (with_id-named fresh r q named h) p)
            (λ alive. prepare-running now q c (with_id-running fresh r q h alive) p))
  ]
]

pub create-IsGood :
    (fresh : Option String) (now : Time) (r : SandboxRecord) (s : SandboxStore)
    → IsNamed fresh
    → 0 < now
    → IsGood s
    → IsGood (create fresh now r s).1
create-IsGood fresh now r s named started g = elim (create-Creates fresh now r s named started) [
  | inl (e, h) ↦ rw h g
  | inr (q, h, free, good, _) ↦ rw h (add_entry-IsGood q s good g)
]
