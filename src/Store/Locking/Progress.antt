-- ===== src/Store/Locking/Progress.antt =====
-- No deadlock among the callers of `lockSandbox` (internal/gateway/store.go).
use e2b_local.Prelude.{ℕ, String, ◌≡◌, refl, some, ◌⊎◌, inl, inr, Bool-cases, Option-cases}
use e2b_local.Store.Locking.{
  System, Shared, Pc, idle, seeking, waiting, checking, holding, removed, Move, asks, misses, finds,
  locks, returns, retries, releases, leaves, Step, moves, Reach, address_of, is_current_entry,
}
use e2b_local.Store.Locking.Invariant.{Reach-IsLocked, holds}

abbrev pub CanMove : ℕ → System → Type 0
CanMove i s = (t : System) × Step i s t

abbrev Ready : ℕ → Shared → Pc → Type 0
Ready i m p = (n : Shared) × (q : Pc) × Move i m p n q

-- A goroutine moves, or waits for an entry whose lock is taken.
ready :
    (i : ℕ) (m : Shared) (p : Pc)
    → Ready i m p ⊎ ((id : String) × (a : ℕ) × (j : ℕ) × (p ≡ waiting id a) × (m.owner a ≡ some j))
ready i m idle = inl (m, seeking "", asks)
ready i m (seeking id) = elim (Option-cases (address_of id m.store)) [
  | inl e ↦ inl (m, idle, misses e)
  | inr (a, e) ↦ inl (m, waiting id a, finds e)
]
ready i m (waiting id a) = elim (Option-cases (m.owner a)) [
  | inl e ↦ inl (_, checking id a, locks e)
  | inr (j, e) ↦ inr (id, a, j, refl, e)
]
ready i m (checking id a) = elim (Bool-cases (is_current_entry id a m.store)) [
  | inl e ↦ inl (m, holding id a, returns e)
  | inr e ↦ inl (_, seeking id, retries e)
]
ready i m (holding id a) = inl (_, idle, releases)
ready i m (removed a) = inl (_, idle, leaves)

-- In any state that is reached, each goroutine can move, or waits for a lock that another goroutine
-- has which can move.
pub Reach-CanMove :
    (s : System) (i : ℕ)
    → Reach s
    → CanMove i s
      ⊎ ((id : String) × (a : ℕ) × (j : ℕ) × (s.pc i ≡ waiting id a)
          × (s.shared.owner a ≡ some j)
          × CanMove j s)
Reach-CanMove s i reach = elim (ready i s.shared (s.pc i)) [
  | inl (n, q, move) ↦ inl (_, moves move)
  | inr (id, a, j, at, taken) ↦ elim (ready j s.shared (s.pc j)) [
    | inl (n, q, move) ↦ inr (id, a, j, at, taken, (_, moves move))
    | inr (k, b, l, waits, other) ↦
        let held : holds (s.pc j) ≡ some a = (Reach-IsLocked s reach).owners.owned a j taken in
        absurd (cc (rw waits at held))
  ]
]
