-- ===== src/Store/Locking/Refinement.antt =====
-- What `lockSandbox` promises (internal/gateway/store.go), as a specification: a lock for each id,
-- which only a stored sandbox has, and which one goroutine takes at a time. Entries, the retries and
-- the locks of deleted entries are not in it.
use mathlib.Core.Path.{subst}
use e2b_local.Prelude.{
  ℕ, String, ◌≡◌, ◌≢◌, refl, sym, ap, ◌∙◌, true, Option, none, some, arith, inl, inr, Bool-cases,
  nat_beq,
}
use e2b_local.Types.{Time, SandboxRecord}
use e2b_local.Store.{
  SandboxStore, new_sandbox_store, create, update, delete_record, get, lock_sandbox,
}
use e2b_local.Store.Locking.{
  Shared, System, Pc, idle, seeking, waiting, checking, holding, removed, Move, asks, misses, finds,
  locks, returns, retries, writes, deletes, releases, leaves, creates, Step, moves, Reach, start,
  later, put, address_of,
}
use e2b_local.Store.Locking.Invariant.{Reach-IsLocked}
use e2b_local.Store.Locking.Safety.{holding_once}

-- The store, and the id of the sandbox that a goroutine has locked.
pub record Spec : Type 0 where
  pub store : SandboxStore
  pub locked : ℕ → Option String

abbrev spec_at : SandboxStore → ℕ → Option String → Spec → Spec
spec_at s i o a = record { store = s; locked = put a.locked i o }

pub data SpecStep (i : ℕ) (a : Spec) : Spec → Type 0 where
  waits : SpecStep i a a
  takes :
      (id : String)
      → get id a.store ≢ none
      → ((j : ℕ) → a.locked j ≡ some id → j ≡ i)
      → SpecStep i a (spec_at a.store i (some id) a)
  changes :
      (id : String) (f : SandboxRecord → SandboxRecord)
      → a.locked i ≡ some id
      → SpecStep i a (record a { store = (update id f a.store).1 })
  drops :
      (id : String)
      → a.locked i ≡ some id
      → SpecStep i a (spec_at (delete_record id a.store).1 i none a)
  frees : SpecStep i a (spec_at a.store i none a)
  adds :
      (fresh : Option String) (now : Time) (r : SandboxRecord)
      → a.locked i ≡ none
      → SpecStep i a (record a { store = (create fresh now r a.store).1 })

abbrev pub locked_id : Pc → Option String
locked_id idle = none
locked_id (seeking id) = none
locked_id (waiting id a) = none
locked_id (checking id a) = none
locked_id (holding id a) = some id
locked_id (removed a) = none

-- A state of the goroutines, and the one of the specification that it stands for.
pub record Refines (a : Spec) (s : System) : Type 0 where
  pub same_store : a.store ≡ s.shared.store
  pub same_locks : (j : ℕ) → a.locked j ≡ locked_id (s.pc j)

locked_id-put :
    (a : Spec) (pc : ℕ → Pc) (i : ℕ) (q : Pc)
    → ((j : ℕ) → a.locked j ≡ locked_id (pc j))
    → (j : ℕ) → put a.locked i (locked_id q) j ≡ locked_id (put pc i q j)
locked_id-put a pc i q same j = elim (Bool-cases (nat_beq i j)) [
  | inl e ↦ rw e refl
  | inr e ↦ rw e (same j)
]

locked_id-kept :
    (a : Spec) (pc : ℕ → Pc) (i : ℕ) (q : Pc)
    → ((j : ℕ) → a.locked j ≡ locked_id (pc j))
    → locked_id q ≡ locked_id (pc i)
    → (j : ℕ) → a.locked j ≡ locked_id (put pc i q j)
locked_id-kept a pc i q same e j = elim (Bool-cases (nat_beq i j)) [
  | inl t ↦
      let here : a.locked j ≡ locked_id (pc i) =
        subst (λ k. a.locked k ≡ locked_id (pc i)) (ground (arith, t)) (same i) in
      rw t (here ∙ sym e)
  | inr f ↦ rw f (same j)
]

locked_id-holding : (p : Pc) (id : String) → locked_id p ≡ some id → (a : ℕ) × (p ≡ holding id a)
locked_id-holding idle id h = absurd (cc h)
locked_id-holding (seeking k) id h = absurd (cc h)
locked_id-holding (waiting k a) id h = absurd (cc h)
locked_id-holding (checking k a) id h = absurd (cc h)
locked_id-holding (holding k a) id h = (a, cc h)
locked_id-holding (removed a) id h = absurd (cc h)

stored-address :
    (id : String) (e : ℕ) (s : SandboxStore) → address_of id s ≡ some e → get id s ≢ none
unfolding address_of lock_sandbox get
stored-address id e s at h = ground (arith, at, h)

abbrev moved : System → ℕ → Shared → Pc → System
moved s i n q = record { shared = n; pc = put s.pc i q }

-- The state of the specification after a step, or none of it.
abbrev Simulates : ℕ → Spec → System → Type 0
Simulates i a t = (b : Spec) × SpecStep i a b × Refines b t

module _ (i : ℕ) (a : Spec) (s : System) (same : Refines a s) where
  silent :
      (n : Shared) (q : Pc)
      → n.store ≡ s.shared.store
      → locked_id q ≡ locked_id (s.pc i)
      → Simulates i a (moved s i n q)
  silent n q stored e = (
    a,
    waits,
    record {
      same_store = same.same_store ∙ sym stored;
      same_locks = locked_id-kept a s.pc i q same.same_locks e;
    },
  )

  stored-get : (id : String) (e : ℕ) → address_of id s.shared.store ≡ some e → get id a.store ≢ none
  stored-get id e at h = stored-address id e s.shared.store at (rw same.same_store at h)

  only :
      (q : Pc) (id : String) (e j : ℕ)
      → q ≡ holding id e
      → Reach (moved s i s.shared q)
      → a.locked j ≡ some id
      → j ≡ i
  only q id e j at reach h = elim (Bool-cases (nat_beq i j)) [
    | inl t ↦ ground (arith, t)
    | inr f ↦
        let (b, there) = locked_id-holding (s.pc j) id (sym (same.same_locks j) ∙ h) in
        let self : nat_beq i i ≡ true = ground arith in
        sym (holding_once (moved s i s.shared q) id i j e b reach (rw self at) (rw f there))
  ]

  locked_as : (q : Pc) → s.pc i ≡ q → a.locked i ≡ locked_id q
  locked_as q at = same.same_locks i ∙ ap locked_id at

  simulated :
      (p : Pc) (n : Shared) (q : Pc)
      → s.pc i ≡ p
      → Move i s.shared p n q
      → Reach (moved s i n q)
      → Simulates i a (moved s i n q)
  simulated _ _ _ at asks reach = silent _ _ refl (sym (ap locked_id at))
  simulated _ _ _ at (misses h) reach = silent _ _ refl (sym (ap locked_id at))
  simulated _ _ _ at (finds h) reach = silent _ _ refl (sym (ap locked_id at))
  simulated _ _ _ at (locks h) reach = silent _ _ refl (sym (ap locked_id at))
  simulated _ _ _ at (returns {id = id} {a = e} h) reach =
      let self : nat_beq i i ≡ true = ground arith in
      let current =
        (Reach-IsLocked (moved s i s.shared (holding id e)) reach).current i id e (rw self refl) in
      (
        spec_at a.store i (some id) a,
        takes id (stored-get id e current) (λ j. only (holding id e) id e j refl reach),
        record {
          same_store = same.same_store;
          same_locks = locked_id-put a s.pc i (holding id e) same.same_locks;
        },
      )
  simulated _ _ _ at (retries h) reach = silent _ _ refl (sym (ap locked_id at))
  simulated _ _ _ at (writes {id = id} {a = e} f) reach = (
    record a { store = (update id f a.store).1 },
    changes id f (locked_as (holding id e) at),
    record {
      same_store = ap (λ st. (update id f st).1) same.same_store;
      same_locks = locked_id-kept a s.pc i (holding id e) same.same_locks (sym (ap locked_id at));
    },
  )
  simulated _ _ _ at (deletes {id = id} {a = e}) reach = (
    spec_at (delete_record id a.store).1 i none a,
    drops id (locked_as (holding id e) at),
    record {
      same_store = ap (λ st. (delete_record id st).1) same.same_store;
      same_locks = locked_id-put a s.pc i (removed e) same.same_locks;
    },
  )
  simulated _ _ _ at releases reach = (
    spec_at a.store i none a,
    frees,
    record {
      same_store = same.same_store;
      same_locks = locked_id-put a s.pc i idle same.same_locks;
    },
  )
  simulated _ _ _ at leaves reach = silent _ _ refl (sym (ap locked_id at))
  simulated _ _ _ at (creates fresh now r) reach = (
    record a { store = (create fresh now r a.store).1 },
    adds fresh now r (locked_as idle at),
    record {
      same_store = ap (λ st. (create fresh now r st).1) same.same_store;
      same_locks = locked_id-kept a s.pc i idle same.same_locks (sym (ap locked_id at));
    },
  )

Step-Refines :
    (i : ℕ) (a : Spec) (s t : System) → Reach s → Refines a s → Step i s t → Simulates i a t
Step-Refines i a s _ reach same (moves {m = n} {p = q} move) =
    simulated i a s same (s.pc i) n q refl move (later i reach (moves move))

abbrev pub new_spec : Spec
new_spec = record { store = new_sandbox_store; locked = λ j. none }

pub data SpecReach : Spec → Type 0 where
  spec_start : SpecReach new_spec
  spec_later : {a b : Spec} (i : ℕ) → SpecReach a → SpecStep i a b → SpecReach b

-- Each state that the goroutines reach stands for one that the specification reaches, in which only
-- stored sandboxes are locked, by one goroutine at a time, and only who has locked one changes its
-- record or deletes it.
pub Reach-Refines : (s : System) → Reach s → (a : Spec) × SpecReach a × Refines a s
Reach-Refines _ start = (new_spec, spec_start, record { same_store = refl; same_locks = λ j. refl })
Reach-Refines t (later {s = s} i reach step) =
    let (a, before, same) = Reach-Refines s reach in
    let (b, next, after) = Step-Refines i a s t reach same step in
    (b, spec_later i before next, after)
