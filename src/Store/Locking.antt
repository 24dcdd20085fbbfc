-- ===== src/Store/Locking.antt =====
-- internal/gateway/store.go: the loop of `lockSandbox`, with its callers as goroutines in any order.
-- Every entry has a lock of its own, which whoever read the entry may take, also after the entry was
-- deleted from the map. Each access to the map is one step, under `mu`.
pub mod Invariant
pub mod Safety
pub mod Progress
pub mod Refinement
use e2b_local.Prelude.{
  ℕ, String, ◌≡◌, Bool, true, false, Option, none, some, nat_beq, if◌then◌else◌,
}
use e2b_local.Prelude.Dict.{lookup}
use e2b_local.Errors.{Result}
use e2b_local.Types.{Time, SandboxRecord}
use e2b_local.Store.{
  SandboxStore, SandboxEntry, new_sandbox_store, create, update, delete_record, lock_sandbox,
}

-- A family of values, changed at one index.
abbrev pub put {ℓ} : {A : Type ℓ} → (ℕ → A) → ℕ → A → ℕ → A
put f i a j = if nat_beq i j then a else f j

-- Where a goroutine stands, with the id it asked for and the entry that it has.
pub data Pc : Type 0 where
  idle : Pc
  seeking : (id : String) → Pc  -- the head of the loop
  waiting : (id : String) (entry : ℕ) → Pc  -- before `entry.lifecycleMu.Lock()`
  checking : (id : String) (entry : ℕ) → Pc  -- after it
  holding : (id : String) (entry : ℕ) → Pc  -- `lockSandbox` has returned the entry
  removed : (entry : ℕ) → Pc  -- the caller has deleted it

-- The map, and the goroutine that has the lock of an entry.
pub record Shared : Type 0 where
  pub store : SandboxStore
  pub owner : ℕ → Option ℕ

abbrev address_in : Option SandboxEntry → Option ℕ
address_in none = none
address_in (some e) = some e.address

unfoldable pub address_of : String → SandboxStore → Option ℕ
unfolding lock_sandbox
address_of id s = address_in (lock_sandbox id s)

abbrev pub is_at : ℕ → Option ℕ → Bool
is_at a none = false
is_at a (some b) = nat_beq b a

-- `exists && current == entry`.
unfoldable pub is_current_entry : String → ℕ → SandboxStore → Bool
unfolding address_of
is_current_entry id a s = is_at a (address_of id s)

abbrev pub with_store : SandboxStore → Shared → Shared
with_store s m = record m { store = s }

abbrev pub lock : ℕ → ℕ → Shared → Shared
lock i a m = record m { owner = put m.owner a (some i) }

abbrev pub unlock : ℕ → Shared → Shared
unlock a m = record m { owner = put m.owner a none }

-- One step of the goroutine `i`. A caller that has an entry changes its record or deletes it; a
-- creation has no lock. Which sandbox is asked for, and how long an entry is held, is left open.
pub data Move (i : ℕ) (m : Shared) : Pc → Shared → Pc → Type 0 where
  asks : {id : String} → Move i m idle m (seeking id)
  misses : {id : String} → address_of id m.store ≡ none → Move i m (seeking id) m idle
  finds :
      {id : String} {a : ℕ}
      → address_of id m.store ≡ some a
      → Move i m (seeking id) m (waiting id a)
  locks :
      {id : String} {a : ℕ}
      → m.owner a ≡ none
      → Move i m (waiting id a) (lock i a m) (checking id a)
  returns :
      {id : String} {a : ℕ}
      → is_current_entry id a m.store ≡ true
      → Move i m (checking id a) m (holding id a)
  retries :
      {id : String} {a : ℕ}
      → is_current_entry id a m.store ≡ false
      → Move i m (checking id a) (unlock a m) (seeking id)
  writes :
      {id : String} {a : ℕ} (f : SandboxRecord → SandboxRecord)
      → Move i m (holding id a) (with_store (update id f m.store).1 m) (holding id a)
  deletes :
      {id : String} {a : ℕ}
      → Move i m (holding id a) (with_store (delete_record id m.store).1 m) (removed a)
  releases : {id : String} {a : ℕ} → Move i m (holding id a) (unlock a m) idle
  leaves : {a : ℕ} → Move i m (removed a) (unlock a m) idle
  creates :
      (fresh : Option String) (now : Time) (r : SandboxRecord)
      → Move i m idle (with_store (create fresh now r m.store).1 m) idle

pub record System : Type 0 where
  pub shared : Shared
  pub pc : ℕ → Pc

pub data Step (i : ℕ) (s : System) : System → Type 0 where
  moves :
      {m : Shared} {p : Pc}
      → Move i s.shared (s.pc i) m p
      → Step i s (record { shared = m; pc = put s.pc i p })

abbrev pub new_system : System
new_system = record {
  shared = record { store = new_sandbox_store; owner = λ a. none };
  pc = λ i. idle;
}

pub data Reach : System → Type 0 where
  start : Reach new_system
  later : {s t : System} (i : ℕ) → Reach s → Step i s t → Reach t
