-- ===== src/Requests/Laws.antt =====
-- What the handlers do to a sandbox that is stored, has not reached the end of its life, and is
-- there by the runtime's inspection, which every backend has.
use e2b_local.Prelude.{
  ℕ, suc, ◌+◌, ◌*◌, ◌≤◌, String, ◌≡◌, refl, true, false, some, ◌⊎◌, ltb, if◌then◌else◌, ◌==◌,
  string_eq, Option-cases, Bool-cases, inl, inr, ==-refl, arith, trim_space,
}
use e2b_local.Prelude.Int.{ℤ, pos}
use e2b_local.Prelude.Dict.{lookup}
use e2b_local.Errors.{Error, Result, ok, err, not_found}
use e2b_local.Types.{
  Time, SandboxRecord, sandbox_record_terminally_expired, request_timeout, add_seconds,
}
use e2b_local.Types.Merge.{or_text, merge_sandbox_runtime_info}
use e2b_local.Store.{
  SandboxStore, get, lock_sandbox, delete_record, update, extend_end_at, set_end_at, later_end_at,
  put_end_at, put_runtime, set_state_and_runtime_info, set_state_runtime_info_and_end_at,
}
use e2b_local.Store.Laws.{has_record, get-update, result-update, result-delete}
use e2b_local.Deadlines.{cancel}
use e2b_local.Runtime.{SandboxRuntimeInspection, Surroundings}
use e2b_local.App.{
  App, Action, pure, raise, ◌>>=◌, ◌>>◌, attempt, branch, gets, in_store, in_runtime, in_deadlines,
  cancel_deadline, time_now,
}
use e2b_local.App.Coherence.{synced}
use e2b_local.App.Effects.{IsLocal, IsForgotten, IsLocal-refl, update-IsLocal, forget-IsForgotten}
use e2b_local.Lifecycle.{
  Inspector, reconcile_found, reconcile_sandbox_record_with_inspector, reconcile_live,
  reconcile_current, reconcile_sandbox_record_locked, active_sandbox_record_locked, under_lock,
  required, get_record, delete_sandbox, forget,
}
use e2b_local.Lifecycle.Coherence.{sync_sandbox_deadline_lem}
use e2b_local.Requests.{
  default_kill_sandbox, default_refresh_sandbox, default_set_sandbox_timeout, extend_to,
  set_timeout_to, finish_update,
}

-- A setter under the lock, and the sync of what it left.
abbrev updated :
    {W : Type 0} → String → (SandboxRecord → SandboxRecord) → SandboxRecord → App W → App W
updated k f r s = record s { store = (update k f s.store).1; deadlines = synced (f r) s.deadlines }

module _ {W : Type 0} (env : Surroundings W) (k : String) (t : ℤ) (r : SandboxRecord) (s : App W)
    (here : get k s.store ≡ some r) where
  abbrev target : Time
  target = add_seconds (env.clock s.ticks) t

  extend_to_lem : extend_to env k t s ≡ (
    ok (later_end_at target r),
    updated k (later_end_at target) r (record s { ticks = suc s.ticks }),
  )
  unfolding extend_to finish_update time_now in_store extend_end_at pure ◌>>=◌
  extend_to_lem =
      rw (result-update k (later_end_at target) s.store, here, sync_sandbox_deadline_lem)

  set_timeout_to_lem : set_timeout_to env k t s ≡ (
    ok (put_end_at target r),
    updated k (put_end_at target) r (record s { ticks = suc s.ticks }),
  )
  unfolding set_timeout_to finish_update time_now in_store set_end_at pure ◌>>=◌
  set_timeout_to_lem =
      rw (result-update k (put_end_at target) s.store, here, sync_sandbox_deadline_lem)

later_choice :
    (old new : Time)
    → ((if ltb new old then old else new) ≡ old) ⊎ ((if ltb new old then old else new) ≡ new)
later_choice old new = elim (Bool-cases (ltb new old)) [
  | inl e ↦ inl (rw e refl)
  | inr e ↦ inr (rw e refl)
]

-- A sandbox that the handlers find: stored, not at the end of its life by the clock's next reading,
-- and there by the runtime's inspection `i`.
pub record IsAlive {W : Type 0} (env : Surroundings W) (s : App W) (r : SandboxRecord)
    (inspect : Inspector W) (i : SandboxRuntimeInspection) : Type 0 where
  pub here : get r.id s.store ≡ some r
  pub fresh : sandbox_record_terminally_expired r (env.clock s.ticks) ≡ false
  pub inspects : env.runtime.inspector ≡ some inspect
  pub answer : (inspect r.runtime_info s.world).0 ≡ ok i
  pub exists : i.exists ≡ true

-- The record of one id has got another deadline, and nothing else but its timer has changed.
pub record IsMovedTo (id : String) (end_at : Time) (s_store : SandboxStore) (n : SandboxStore)
    : Type 0 where
  pub moved : (e : SandboxRecord) × (get id n ≡ some e) × (e.end_at ≡ end_at)
  pub others : (j : String) → (id == j) ≡ false → get j n ≡ get j s_store

module _ {W : Type 0} (env : Surroundings W) (r : SandboxRecord) (s : App W) (inspect : Inspector W)
    (i : SandboxRuntimeInspection) (alive : IsAlive env s r inspect i) where
  -- The record with the runtime's state and addresses, and the state of the gateway then.
  abbrev refreshed : SandboxRecord → SandboxRecord
  refreshed =
      put_runtime (or_text (trim_space i.state) r.state)
        (merge_sandbox_runtime_info r.runtime_info i.info) 0

  abbrev seen : App W
  seen =
      updated r.id refreshed r
        (record s { ticks = suc s.ticks; world = (inspect r.runtime_info s.world).1 })

  seen-here : get r.id seen.store ≡ some (refreshed r)
  seen-here = rw (get-update r.id r.id refreshed s.store, ==-refl r.id, alive.here) refl

  seen-IsLocal : IsLocal r.id s.store s.deadlines seen.store seen.deadlines
  seen-IsLocal =
      update-IsLocal s.store s.deadlines s.store s.deadlines refreshed (refreshed r)
        (IsLocal-refl r.id s.store s.deadlines)

  active_locked-alive : active_sandbox_record_locked env r.id s ≡ (ok (refreshed r), seen)
  unfolding active_sandbox_record_locked reconcile_sandbox_record_locked reconcile_current
      reconcile_live reconcile_sandbox_record_with_inspector reconcile_found
      set_state_and_runtime_info set_state_runtime_info_and_end_at in_runtime in_store get_record
      gets time_now raise pure ◌>>=◌
  active_locked-alive =
      rw
        (
          alive.here,
          alive.fresh,
          alive.inspects,
          alive.answer,
          alive.exists,
          result-update r.id refreshed s.store,
          alive.here,
          sync_sandbox_deadline_lem,
        )
        refl

  under_lock-alive :
      {A : Type 0} (k : SandboxRecord → Action W A)
      → under_lock env r.id (active_sandbox_record_locked env r.id >>= k) s ≡ k (refreshed r) seen
  unfolding under_lock gets get lock_sandbox ◌>>=◌
  under_lock-alive k = elim (Option-cases (lookup r.id s.store.sandboxes)) [
    | inl e ↦ absurd (cc (e, alive.here))
    | inr (entry, e) ↦ rw (e, active_locked-alive) refl
  ]

  stored : has_record r.id seen.store ≡ true
  stored = rw (seen-here, has_record) refl

  abbrev deletion : Result (Unit {0}) × W
  deletion = env.runtime.delete_sandbox (refreshed r).runtime_info seen.world

  abbrev kill_out : Result (Unit {0}) × App W
  kill_out = default_kill_sandbox env r.id s

  killed :
      (t : Unit {0})
      → deletion.0 ≡ ok t
      → kill_out ≡ (
        ok tt,
        record seen {
          world = deletion.1;
          store = (delete_record r.id seen.store).1;
          deadlines = cancel r.id seen.deadlines;
        },
      )
  unfolding default_kill_sandbox delete_sandbox forget attempt in_runtime in_store in_deadlines
      cancel_deadline pure ◌>>=◌
  killed t h =
      rw
        (under_lock-alive (λ q. delete_sandbox env q required >>= λ result.
          branch result.deleted (pure tt) (raise not_found)))
        (rw (h, result-delete r.id seen.store, stored) refl)

  -- A sandbox is stored, has not reached the end of its life, and the runtime's inspection finds it: a
  -- kill that the runtime then carries out succeeds, the store has no such sandbox and the table no
  -- timer for it, and the other records and timers are as they were.
  pub kill_ok :
      (t : Unit {0})
      → deletion.0 ≡ ok t
      → (kill_out.0 ≡ ok tt)
        × IsForgotten r.id s.store s.deadlines kill_out.1.store kill_out.1.deadlines
  kill_ok t h =
      rw (killed t h)
        (refl, forget-IsForgotten r.id s.store s.deadlines seen.store seen.deadlines seen-IsLocal)

  refused :
      (e : Error) → deletion.0 ≡ err e → kill_out ≡ (err e, record seen { world = deletion.1 })
  unfolding default_kill_sandbox delete_sandbox attempt in_runtime raise ◌>>=◌
  refused e h =
      rw
        (under_lock-alive (λ q. delete_sandbox env q required >>= λ result.
          branch result.deleted (pure tt) (raise not_found)))
        (rw h refl)

  -- For such a sandbox, a kill that the runtime refuses fails with the runtime's error, the sandbox is
  -- still stored with its deadline, and the other records and timers are as they were.
  pub kill_refused :
      (e : Error)
      → deletion.0 ≡ err e
      → (kill_out.0 ≡ err e)
        × IsMovedTo r.id r.end_at s.store kill_out.1.store
        × IsLocal r.id s.store s.deadlines kill_out.1.store kill_out.1.deadlines
  kill_refused e h = rw (refused e h) (
    refl,
    record { moved = (refreshed r, seen-here, refl); others = seen-IsLocal.records },
    seen-IsLocal,
  )

  -- What a setter leaves after the look at the record.
  moved_by :
      (f : SandboxRecord → SandboxRecord) (ticks : ℕ)
      → IsMovedTo r.id
          (f (refreshed r)).end_at
          s.store
          (updated r.id f (refreshed r) (record seen { ticks = ticks })).store
  moved_by f ticks = record {
    moved = (
      f (refreshed r),
      rw (get-update r.id r.id f seen.store, ==-refl r.id, seen-here) refl,
      refl,
    );
    others = λ j e. rw (get-update r.id j f seen.store, e) (seen-IsLocal.records j e);
  }

  -- For such a sandbox, setting a timeout of `n` seconds succeeds, moves its deadline to that many
  -- seconds after the clock's next reading, earlier or later, and leaves the other records alone.
  pub set_timeout_lem :
      (n : ℕ)
      → ((default_set_sandbox_timeout env r.id (pos n) s).0 ≡ ok tt)
        × IsMovedTo r.id
            (env.clock (suc s.ticks) + n * 1_000_000_000)
            s.store
            (default_set_sandbox_timeout env r.id (pos n) s).1.store
  unfolding default_set_sandbox_timeout pure ◌>>=◌
  set_timeout_lem n =
      let end_at = add_seconds (env.clock (suc s.ticks)) (pos n) in
      rw (under_lock-alive (λ _. set_timeout_to env r.id (pos n) >> pure tt)) (
        rw (set_timeout_to_lem env r.id (pos n) (refreshed r) seen seen-here)
          (refl, unfold add_seconds in moved_by (put_end_at end_at) (suc (suc s.ticks))))

  -- For such a sandbox, a refresh by `n` seconds, at most 3600, succeeds and leaves the other records
  -- alone; the deadline is then that many seconds after the clock's next reading, or as it was,
  -- whichever is later.
  pub refresh_lem :
      (n : ℕ)
      → n ≤ 3600
      → ((default_refresh_sandbox env r.id (some (pos n)) s).0 ≡ ok tt)
        × ((end_at : Time) × IsMovedTo r.id end_at s.store
              (default_refresh_sandbox env r.id (some (pos n)) s).1.store
            × (r.end_at ≤ end_at)
            × (env.clock (suc s.ticks) + n * 1_000_000_000 ≤ end_at)
            × ((end_at ≡ r.end_at) ⊎ (end_at ≡ env.clock (suc s.ticks) + n * 1_000_000_000)))
  unfolding default_refresh_sandbox request_timeout pure ◌>>=◌
  refresh_lem n small =
      let short : ltb 3600 n ≡ false = ground (arith, small) in
      let goal = add_seconds (env.clock (suc s.ticks)) (pos n) in
      rw short (
        rw (under_lock-alive (λ _. extend_to env r.id (pos n) >> pure tt)) (
          rw (extend_to_lem env r.id (pos n) (refreshed r) seen seen-here) (
            refl,
            (
              (later_end_at goal (refreshed r)).end_at,
              moved_by (later_end_at goal) (suc (suc s.ticks)),
              unfold add_seconds in ground arith,
              unfold add_seconds in ground arith,
              unfold add_seconds in later_choice r.end_at goal,
            ),
          )))
