-- ===== src/Store/Locking/Invariant.antt =====
-- The invariant of the locks of `lockSandbox` (internal/gateway/store.go).
use mathlib.Core.Path.{subst}
use text.Mathlib.TextEquality.{eq_iff}
use e2b_local.Prelude.{
  ℕ, String, ◌≡◌, ◌≢◌, refl, sym, ap, ◌∙◌, true, Option, none, some, nat_beq, if◌then◌else◌, ◌==◌,
  string_eq, arith, inl, inr, Bool-cases, Option-cases, ==→eq,
}
use e2b_local.Prelude.Dict.{lookup, lookup-insert, lookup-delete}
use e2b_local.Types.{Time, SandboxRecord}
use e2b_local.Store.{
  SandboxStore, create, update, delete_record, create_checked, prepare, with_id, lock_sandbox,
}
use e2b_local.Errors.{Result, ok, err}
use e2b_local.Store.Locking.{
  Shared, System, Pc, idle, seeking, waiting, checking, holding, removed, Move, asks, misses, finds,
  locks, returns, retries, writes, deletes, releases, leaves, creates, Step, moves, Reach, start,
  later, put, address_of, is_at, is_current_entry,
}

address_of-update :
    (k j : String) (f : SandboxRecord → SandboxRecord) (s : SandboxStore)
    → address_of j (update k f s).1 ≡ address_of j s
unfolding address_of lock_sandbox update
address_of-update k j f s = elim (Option-cases (lookup k s.sandboxes)) [
  | inl e ↦ rw (e, update) refl
  | inr (x, e) ↦
      rw (e, update)
        (ground
          (arith, lookup-insert k j (record x { stored = f x.stored }) s.sandboxes, e, eq_iff k j))
]

address_of-delete :
    (k j : String) (s : SandboxStore)
    → address_of j (delete_record k s).1 ≡ (if k == j then none else address_of j s)
unfolding address_of lock_sandbox delete_record
address_of-delete k j s = ground (arith, lookup-delete k j s.sandboxes, eq_iff k j)

address_of-create_checked :
    (r : Result SandboxRecord) (j : String) (a : ℕ) (s : SandboxStore)
    → address_of j s ≡ some a
    → address_of j (create_checked r s).1 ≡ some a
unfolding address_of lock_sandbox
address_of-create_checked (err e) j a s h = h
address_of-create_checked (ok r) j a s h = elim (Option-cases (lookup r.id s.sandboxes)) [
  | inl e ↦
      rw (e, create_checked)
        (ground (
          arith,
          lookup-insert r.id j (record { address = s.next_address; stored = r }) s.sandboxes,
          h,
          e,
          eq_iff r.id j,
        ))
  | inr (x, e) ↦ rw (e, create_checked) h
]

address_of-create :
    (fresh : Option String) (now : Time) (r : SandboxRecord) (j : String) (a : ℕ) (s : SandboxStore)
    → address_of j s ≡ some a
    → address_of j (create fresh now r s).1 ≡ some a
unfolding create
address_of-create fresh now r j a s h =
    address_of-create_checked (prepare now (with_id fresh r)) j a s h

-- The entry whose lock a goroutine has.
abbrev pub holds : Pc → Option ℕ
holds idle = none
holds (seeking id) = none
holds (waiting id a) = none
holds (checking id a) = some a
holds (holding id a) = some a
holds (removed a) = some a

-- What a step does to the locks.
data Effect (i : ℕ) (m n : Shared) (p q : Pc) : Type 0 where
  keeps : n.owner ≡ m.owner → holds q ≡ holds p → Effect i m n p q
  gets :
      (a : ℕ)
      → m.owner a ≡ none
      → holds p ≡ none
      → holds q ≡ some a
      → n.owner ≡ put m.owner a (some i)
      → Effect i m n p q
  gives :
      (a : ℕ) → holds p ≡ some a → holds q ≡ none → n.owner ≡ put m.owner a none → Effect i m n p q

effect : (i : ℕ) (m n : Shared) (p q : Pc) → Move i m p n q → Effect i m n p q
effect i m _ _ _ asks = keeps refl refl
effect i m _ _ _ (misses h) = keeps refl refl
effect i m _ _ _ (finds h) = keeps refl refl
effect i m _ _ _ (locks {a = a} free) = gets a free refl refl refl
effect i m _ _ _ (returns h) = keeps refl refl
effect i m _ _ _ (retries {a = a} h) = gives a refl refl refl
effect i m _ _ _ (writes f) = keeps refl refl
effect i m _ _ _ deletes = keeps refl refl
effect i m _ _ _ (releases {a = a}) = gives a refl refl refl
effect i m _ _ _ (leaves {a = a}) = gives a refl refl refl
effect i m _ _ _ (creates fresh now r) = keeps refl refl

-- The owner of a lock is the goroutine that has it.
pub record IsOwned (owner : ℕ → Option ℕ) (pc : ℕ → Pc) : Type 0 where
  pub own : (i a : ℕ) → holds (pc i) ≡ some a → owner a ≡ some i
  pub owned : (a i : ℕ) → owner a ≡ some i → holds (pc i) ≡ some a

holds-put :
    (pc : ℕ → Pc) (i j : ℕ) (q : Pc)
    → holds (put pc i q j) ≡ (if nat_beq i j then holds q else holds (pc j))
holds-put pc i j q = elim (Bool-cases (nat_beq i j)) [ inl e ↦ rw e refl | inr e ↦ rw e refl ]

effect-IsOwned :
    (i : ℕ) (m n : Shared) (pc : ℕ → Pc) (q : Pc)
    → Effect i m n (pc i) q
    → IsOwned m.owner pc
    → IsOwned n.owner (put pc i q)
effect-IsOwned i m n pc q (keeps same e) o = record {
  own = λ j a h.
      let at : n.owner a ≡ m.owner a = ap (λ f. f a) same in
      ground (arith, h, e, at, o.own j a, holds-put pc i j q);
  owned = λ a j h.
      let at : n.owner a ≡ m.owner a = ap (λ f. f a) same in
      ground (arith, h, e, at, o.owned a j, holds-put pc i j q);
}
effect-IsOwned i m n pc q (gets b free held got e) o = record {
  own = λ j a h.
      let at : n.owner a ≡ put m.owner b (some i) a = ap (λ f. f a) e in
      ground (arith, h, free, held, got, at, o.own j a, holds-put pc i j q);
  owned = λ a j h.
      let at : n.owner a ≡ put m.owner b (some i) a = ap (λ f. f a) e in
      ground (arith, h, free, held, got, at, o.owned a j, holds-put pc i j q);
}
effect-IsOwned i m n pc q (gives b held left e) o = record {
  own = λ j a h.
      let at : n.owner a ≡ put m.owner b none a = ap (λ f. f a) e in
      ground (arith, h, held, left, at, o.own j a, o.own i b, o.own j b, holds-put pc i j q);
  owned = λ a j h.
      let at : n.owner a ≡ put m.owner b none a = ap (λ f. f a) e in
      ground (arith, h, held, left, at, o.owned a j, o.own i b, holds-put pc i j q);
}

-- A step of another goroutine leaves the entry of an id that is held where it is.
kept-address :
    (i j : ℕ) (m n : Shared) (p q : Pc) (id : String) (a : ℕ)
    → Move j m p n q
    → (holds p ≢ some a)
    → address_of id m.store ≡ some a
    → ((k : String) (b : ℕ) → p ≡ holding k b → address_of k m.store ≡ some b)
    → address_of id n.store ≡ some a
kept-address i j m _ p _ id a (writes {id = k} f) other at own =
    address_of-update k id f m.store ∙ at
kept-address i j m _ p _ id a (creates fresh now r) other at own =
    address_of-create fresh now r id a m.store at
kept-address i j m _ p _ id a (deletes {id = k} {a = b}) other at own =
    elim (Bool-cases (k == id)) [
      | inl t ↦
          let here : address_of id m.store ≡ some b =
            subst (λ x. address_of x m.store ≡ some b) (==→eq k id t) (own k b refl) in
          absurd (other (sym here ∙ at))
      | inr f ↦ rw (address_of-delete k id m.store, f) at
    ]
kept-address i j m _ p _ id a _ other at own = at

pub record IsLocked (s : System) : Type 0 where
  pub owners : IsOwned s.shared.owner s.pc
  pub current :
      (i : ℕ) (id : String) (a : ℕ) → s.pc i ≡ holding id a → address_of id s.shared.store ≡ some a

is_at-some : (a : ℕ) (o : Option ℕ) → is_at a o ≡ true → o ≡ some a
is_at-some a none h = absurd (cc h)
is_at-some a (some b) h = ground (arith, h)

-- The goroutine that moves holds an entry afterwards only if it is the current one.
own-address :
    (i : ℕ) (m n : Shared) (p q : Pc) (id : String) (a : ℕ)
    → Move i m p n q
    → q ≡ holding id a
    → ((k : String) (b : ℕ) → p ≡ holding k b → address_of k m.store ≡ some b)
    → address_of id n.store ≡ some a
unfolding is_current_entry
own-address i m _ p _ id a (returns {id = k} {a = b} h) e own =
    let same : k ≡ id = cc e in
    let at : b ≡ a = cc e in
    let here : address_of k m.store ≡ some b = is_at-some b (address_of k m.store) h in
    subst (λ x. address_of x m.store ≡ some a) same (here ∙ ap (λ x. some x) at)
own-address i m _ p _ id a (writes {id = k} {a = b} f) e own =
    address_of-update k id f m.store ∙ own id a e
own-address i m _ p _ id a _ e own = absurd (cc e)

Step-IsLocked : (i : ℕ) (s t : System) → Step i s t → IsLocked s → IsLocked t
Step-IsLocked i s _ (moves {m = n} {p = q} move) l = record {
  owners = effect-IsOwned i s.shared n s.pc q (effect i s.shared n (s.pc i) q move) l.owners;
  current = λ j id a h. elim (Bool-cases (nat_beq i j)) [
    | inl t ↦ own-address i s.shared n (s.pc i) q id a move (rw t at h) (l.current i)
    | inr f ↦
        let there : s.pc j ≡ holding id a = rw f at h in
        let other : holds (s.pc i) ≢ some a =
          λ held. ground (arith, l.owners.own i a held, l.owners.own j a (ap holds there), f) in
        kept-address j i s.shared n (s.pc i) q id a move other (l.current j id a there)
          (l.current i)
  ];
}

pub Reach-IsLocked : (s : System) → Reach s → IsLocked s
Reach-IsLocked _ start = record {
  owners = record { own = λ i a h. absurd (cc h); owned = λ a i h. absurd (cc h) };
  current = λ i id a h. absurd (cc h);
}
Reach-IsLocked t (later {s = s} i reach step) = Step-IsLocked i s t step (Reach-IsLocked s reach)
