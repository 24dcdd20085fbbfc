-- ===== src/Store/Locking/Safety.antt =====
-- What `lockSandbox` is for (internal/gateway/store.go): while a goroutine holds the entry of a
-- sandbox, no other holds one of the same sandbox, and nobody else changes its record. So a handler
-- that runs under the lock may be read as one step.
use e2b_local.Prelude.{
  ℕ, String, ◌≡◌, ◌≢◌, refl, ap, ◌∙◌, Option, none, some, arith, inl, inr, false, ◌==◌, string_eq,
  Option-cases, Bool-cases, ==→eq, nat_beq,
}
use mathlib.Core.Path.{subst}
use text.Mathlib.TextEquality.{eq_iff}
use e2b_local.Prelude.Dict.{lookup}
use e2b_local.Errors.{Result, ok, err}
use e2b_local.Types.{Time, SandboxRecord}
use e2b_local.Store.{SandboxStore, get, create, create_checked, prepare, with_id, lock_sandbox}
use e2b_local.Store.Laws.{get-update, get-delete, get-add_entry}
use e2b_local.Store.Locking.{
  System, Shared, Pc, holding, Step, Reach, address_of, moves, Move, later, writes, deletes,
  creates,
}
use e2b_local.Store.Locking.Invariant.{Reach-IsLocked, holds}

-- In any state that is reached, two goroutines to which `lockSandbox` has returned an entry for the
-- same sandbox, and which still hold it, are the same one.
pub holding_once :
    (s : System) (id : String) (i j a b : ℕ)
    → Reach s
    → s.pc i ≡ holding id a
    → s.pc j ≡ holding id b
    → i ≡ j
holding_once s id i j a b reach hi hj =
    let l = Reach-IsLocked s reach in
    let same : b ≡ a = ground (arith, l.current i id a hi, l.current j id b hj) in
    let oi = l.owners.own i a (ap holds hi) in
    let oj : s.shared.owner a ≡ some j = rw (← same) (l.owners.own j b (ap holds hj)) in
    ground (arith, oi, oj)

absent-other :
    (k j : String) (a : ℕ) (s : SandboxStore)
    → address_of j s ≡ some a
    → lookup k s.sandboxes ≡ none
    → (k == j) ≡ false
unfolding address_of lock_sandbox
absent-other k j a s h e = ground (arith, h, e, eq_iff k j)

get-create_checked :
    (r : Result SandboxRecord) (j : String) (a : ℕ) (s : SandboxStore)
    → address_of j s ≡ some a
    → get j (create_checked r s).1 ≡ get j s
get-create_checked (err e) j a s h = refl
get-create_checked (ok r) j a s h = elim (Option-cases (lookup r.id s.sandboxes)) [
  | inl e ↦
      let other : (r.id == j) ≡ false = absent-other r.id j a s h e in
      rw (e, create_checked) (rw (get-add_entry j r s, other) refl)
  | inr (x, e) ↦ rw (e, create_checked) refl
]

get-create :
    (fresh : Option String) (now : Time) (r : SandboxRecord) (j : String) (a : ℕ) (s : SandboxStore)
    → address_of j s ≡ some a
    → get j (create fresh now r s).1 ≡ get j s
unfolding create
get-create fresh now r j a s h = get-create_checked (prepare now (with_id fresh r)) j a s h

-- A step of a goroutine that does not hold an entry of a sandbox leaves its record, if it has one.
get-other :
    (j : ℕ) (m n : Shared) (p q : Pc) (id : String) (a : ℕ)
    → Move j m p n q
    → address_of id m.store ≡ some a
    → ((k : String) (b : ℕ) → p ≡ holding k b → (k == id) ≡ false)
    → get id n.store ≡ get id m.store
get-other j m _ p _ id a (writes {id = k} {a = b} f) at other =
    rw (get-update k id f m.store, other k b refl) refl
get-other j m _ p _ id a (deletes {id = k} {a = b}) at other =
    rw (get-delete k id m.store, other k b refl) refl
get-other j m _ p _ id a (creates fresh now r) at other = get-create fresh now r id a m.store at
get-other j m _ p _ id a _ at other = refl

-- Steps of goroutines other than `i`.
pub data Others (i : ℕ) (s : System) : System → Type 0 where
  none_yet : Others i s s
  then_one : {t u : System} (j : ℕ) → i ≢ j → Others i s t → Step j t u → Others i s u

Reach-Others : (i : ℕ) (s t : System) → Reach s → Others i s t → Reach t
Reach-Others i s _ reach none_yet = reach
Reach-Others i s t reach (then_one {t = u} j other before step) =
    later j (Reach-Others i s u reach before) step

Step-held :
    (i j : ℕ) (u v : System) (id : String) (a : ℕ)
    → Reach u
    → i ≢ j
    → u.pc i ≡ holding id a
    → Step j u v
    → (v.pc i ≡ holding id a) × (get id v.shared.store ≡ get id u.shared.store)
Step-held i j u _ id a reach other held (moves {m = n} {p = q} move) =
    let free : (k : String) (b : ℕ) → u.pc j ≡ holding k b → (k == id) ≡ false = λ k b hj.
      elim (Bool-cases (k == id)) [
        | inl e ↦
            let moved : u.pc j ≡ holding id b =
              subst (λ x. u.pc j ≡ holding x b) (==→eq k id e) hj in
            absurd (other (holding_once u id i j a b reach held moved))
        | inr e ↦ e
      ] in
    let apart : nat_beq j i ≡ false = ground (arith, other) in
    (
      rw apart held,
      get-other j u.shared n (u.pc j) q id a move ((Reach-IsLocked u reach).current i id a held)
          free,
    )

-- In any state that is reached, while a goroutine holds the entry of a sandbox, whatever the others do
-- for any number of steps, the record of the sandbox stays as it is, and the goroutine holds the entry.
pub held-Others :
    (i : ℕ) (s t : System) (id : String) (a : ℕ)
    → Reach s
    → s.pc i ≡ holding id a
    → Others i s t
    → (t.pc i ≡ holding id a) × (get id t.shared.store ≡ get id s.shared.store)
held-Others i s _ id a reach h none_yet = (h, refl)
held-Others i s t id a reach h (then_one {t = u} j other before step) =
    let (held, same) = held-Others i s u id a reach h before in
    let (still, kept) = Step-held i j u t id a (Reach-Others i s u reach before) other held step in
    (still, kept ∙ same)
