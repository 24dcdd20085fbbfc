-- ===== src/App.antt =====
-- internal/gateway/server.go: the part of `App` that the sandbox handlers change, and the actions
-- that they are made of. A handler runs between `lockSandbox` and `Unlock`, so it is one action; a
-- creation holds no lock, and History has it in two parts.
pub mod Effects
pub mod Keeps
pub mod Coherence
use e2b_local.Prelude.{
  ℕ, suc, String, Bool, true, false, not, ◌||◌, Option, none, some, if◌then◌else◌, ◌==◌, string_eq,
}
use e2b_local.Errors.{Error, Result, ok, err, not_found}
use e2b_local.Types.{Time, SandboxRecord, is_zero_time, running}
use e2b_local.Store.{SandboxStore, create}
use e2b_local.Deadlines.{DeadlineManager, Callback, schedule, cancel}
use e2b_local.Runtime.{RuntimeCall, Surroundings}

pub record App (W : Type 0) : Type 0 where
  pub store : SandboxStore
  pub deadlines : DeadlineManager
  pub world : W
  pub ticks : ℕ

-- What was written before an error stays written.
abbrev pub Action : Type 0 → Type 0 → Type 0
Action W A = App W → Result A × App W

module _ {W : Type 0} where
  unfoldable pub pure : {A : Type 0} → A → Action W A
  pure a s = (ok a, s)

  unfoldable pub raise : {A : Type 0} → Error → Action W A
  raise e s = (err e, s)

  abbrev pub continue : {A B : Type 0} → Result A → (A → Action W B) → Action W B
  continue (ok a) f s = f a s
  continue (err e) f s = (err e, s)

  infixl 5 ◌>>=◌ ◌>>◌
  unfoldable pub ◌>>=◌ : {A B : Type 0} → Action W A → (A → Action W B) → Action W B
  ◌>>=◌ m f s = let (r, s') = m s in continue r f s'

  abbrev pub ◌>>◌ : {A B : Type 0} → Action W A → Action W B → Action W B
  m >> n = m >>= λ _. n

  -- The result as a value, where the source goes on after an error.
  unfoldable pub attempt : {A : Type 0} → Action W A → Action W (Result A)
  attempt m s = let (r, s') = m s in (ok r, s')

  abbrev pub branch : {A : Type 0} → Bool → Action W A → Action W A → Action W A
  branch true m n = m
  branch false m n = n

  abbrev pub on_option : {A B : Type 0} → Option A → Action W B → (A → Action W B) → Action W B
  on_option none m f = m
  on_option (some a) m f = f a

  abbrev pub on_result :
      {A B : Type 0} → Result A → (Error → Action W B) → (A → Action W B) → Action W B
  on_result (err e) m f = m e
  on_result (ok a) m f = f a

  -- A read, and an operation of the store, the timers or the runtime.
  unfoldable pub gets : {A : Type 0} → (App W → A) → Action W A
  gets f s = (ok (f s), s)

  unfoldable pub in_store : {A : Type 0} → (SandboxStore → A × SandboxStore) → Action W A
  in_store f s = let (a, store') = f s.store in (ok a, record s { store = store' })

  unfoldable pub in_deadlines : (DeadlineManager → DeadlineManager) → Action W (Unit {0})
  in_deadlines f s = (ok tt, record s { deadlines = f s.deadlines })

  unfoldable pub in_runtime : {A : Type 0} → RuntimeCall W A → Action W A
  in_runtime call s = let (r, world') = call s.world in (r, record s { world = world' })

  module _ (env : Surroundings W) where
    -- `time.Now().UTC()`.
    unfoldable pub time_now : Action W Time
    time_now s = (ok (env.clock s.ticks), record s { ticks = suc s.ticks })

    -- `Store.Create`, which may ask for an id and for the time.
    unfoldable pub create_record : SandboxRecord → Action W SandboxRecord
    create_record r s =
        let (created, store') = create (env.random_id s.ticks) (env.clock s.ticks) r s.store in
        (created, record s { store = store'; ticks = suc s.ticks })

  unfoldable pub cancel_deadline : String → Action W (Unit {0})
  cancel_deadline id = in_deadlines (cancel id)

  unfoldable pub schedule_deadline : String → Time → Time → Action W (Unit {0})
  schedule_deadline id fire_at expected =
      in_deadlines (schedule id fire_at (record { sandbox_id = id; expected_end_at = expected }))

  -- `syncSandboxDeadline`.
  unfoldable pub sync_sandbox_deadline : SandboxRecord → Action W (Unit {0})
  sync_sandbox_deadline r = branch (r.id == "") (pure tt) (
      branch (not (r.state == running) || is_zero_time r.end_at) (cancel_deadline r.id)
        (schedule_deadline r.id r.end_at r.end_at))
