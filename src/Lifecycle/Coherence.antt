-- ===== src/Lifecycle/Coherence.antt =====
-- The actions of Lifecycle keep the store and the timers coherent.
use e2b_local.Prelude.{
  String, ◌≡◌, none, some, List, [], ◌∷◌, arith, string_eq, Bool-cases, Option-cases, inl, inr,
  trim_space,
}
use e2b_local.Errors.{ok}
use e2b_local.Types.{SandboxRecord, paused, sandbox_record_terminally_expired}
use e2b_local.Types.Merge.{or_text, merge_sandbox_runtime_info}
use e2b_local.Store.{
  get, update, set_state, put_state, put_runtime, set_state_and_runtime_info,
  set_state_runtime_info_and_end_at,
}
use e2b_local.Store.Laws.{result-update, result-delete, has_record, update_absent, delete_absent}
use e2b_local.Store.Invariant.{KeepsGood, put_state-KeepsGood, put_runtime-KeepsGood}
use e2b_local.Runtime.{RuntimeCall, Surroundings, SandboxRuntimeInspection}
use e2b_local.App.{
  App, in_deadlines, cancel_deadline, schedule_deadline, Action, pure, ◌>>=◌, on_option, in_store,
  in_runtime, time_now, sync_sandbox_deadline,
}
use e2b_local.App.Keeps.{Keeps, keeps_rules, Keeps-bind-gets, Keeps-bind, Keeps-pure}
use e2b_local.App.Coherence.{
  Debts, no_debts, AreCoherent, synced, sync_stored-IsCoherent, update-IsCoherent,
  delete-IsCoherent,
}
use e2b_local.Lifecycle.{
  SandboxRuntimeDeletePolicy, Inspector, forget, get_record, delete_sandbox, pause_sandbox_locked,
  reconcile_missing, reconcile_found, reconcile_sandbox_record_with_inspector, reconcile_live,
  reconcile_current, reconcile_sandbox_record_locked, active_sandbox_record_locked, under_lock,
  active_sandbox_record, reconcile_sandbox_record, reconcile_sandbox_records,
}

abbrev pub CoherentIf : {W : Type 0} → Debts → App W → Type 0
CoherentIf x s = AreCoherent x s.store s.deadlines

abbrev pub Coherent : {W : Type 0} → App W → Type 0
Coherent s = CoherentIf no_debts s

module _ {W : Type 0} where
  pub sync_sandbox_deadline_lem :
      (r : SandboxRecord) (s : App W)
      → sync_sandbox_deadline r s ≡ (ok tt, record s { deadlines = synced r s.deadlines })
  unfolding sync_sandbox_deadline cancel_deadline schedule_deadline in_deadlines pure
  sync_sandbox_deadline_lem r s = ground arith

module _ {W : Type 0} {x : Debts} where
  pub in_runtime-Coherent :
      {A : Type 0} (call : RuntimeCall W A) → Keeps (CoherentIf x) (in_runtime call)
  unfolding in_runtime
  in_runtime-Coherent call = record { at = λ s c. c }

  -- A setter of the store, and a sync of what it returned.
  pub update_sync-Coherent :
      {A : Type 0} (k : String) (f : SandboxRecord → SandboxRecord) (missing : Action W A)
      (rest : SandboxRecord → Action W A)
      → KeepsGood f
      → Keeps (CoherentIf x) missing
      → ((u : SandboxRecord) → Keeps (CoherentIf x) (rest u))
      → Keeps (CoherentIf x) (
          in_store (update k f) >>= λ updated.
          on_option updated missing (λ u. sync_sandbox_deadline u >>= λ _. rest u))
  unfolding in_store ◌>>=◌
  update_sync-Coherent k f missing rest keeps km kr = record {
    at = λ s c. elim (Option-cases (get k s.store)) [
      | inl e ↦ rw (update_absent k f s.store e) (km.at s c)
      | inr (r, e) ↦
          rw (result-update k f s.store, e, sync_sandbox_deadline_lem)
            ((kr (f r)).at _ (update-IsCoherent k f r s.store s.deadlines keeps e c))
    ];
  }

  pub forget-Coherent : (k : String) → Keeps (CoherentIf x) (forget {W = W} k)
  unfolding forget in_store cancel_deadline in_deadlines pure ◌>>=◌
  forget-Coherent k = record {
    at = λ s c. elim (Option-cases (get k s.store)) [
      | inl e ↦ rw (delete_absent k s.store e) c
      | inr (r, e) ↦
          rw (result-delete k s.store, has_record, e) (delete-IsCoherent k s.store s.deadlines c)
    ];
  }

module _ {W : Type 0} {x : Debts} (env : Surroundings W) where
  pub time_now-Coherent : Keeps (CoherentIf x) (time_now env)
  unfolding time_now
  time_now-Coherent = record { at = λ s c. c }

  pub ruleset steps = (keeps_rules, in_runtime-Coherent, forget-Coherent, time_now-Coherent)

  pub delete_sandbox-Coherent :
      (r : SandboxRecord) (policy : SandboxRuntimeDeletePolicy)
      → Keeps (CoherentIf x) (delete_sandbox env r policy)
  unfolding delete_sandbox
  delete_sandbox-Coherent r policy = search steps

  pub get_record-Coherent : (id : String) → Keeps (CoherentIf x) (get_record {W = W} id)
  unfolding get_record
  get_record-Coherent id = search steps

  pub pause_sandbox_locked-Coherent :
      (r : SandboxRecord) → Keeps (CoherentIf x) (pause_sandbox_locked env r)
  unfolding pause_sandbox_locked set_state
  pause_sandbox_locked-Coherent r = Keeps-bind _ _ (in_runtime-Coherent _) λ _.
      update_sync-Coherent r.id (put_state paused) (pure none) (λ p. pure (some p))
        (put_state-KeepsGood paused) (search keeps_rules) (λ u. search keeps_rules)

  pub reconcile_missing-Coherent :
      (r : SandboxRecord) → Keeps (CoherentIf x) (reconcile_missing env r)
  unfolding reconcile_missing
  reconcile_missing-Coherent r = search (steps, delete_sandbox-Coherent, get_record-Coherent)

  pub reconcile_found-Coherent :
      (r : SandboxRecord) (inspection : SandboxRuntimeInspection)
      → Keeps (CoherentIf x) (reconcile_found env r inspection)
  unfolding reconcile_found set_state_and_runtime_info set_state_runtime_info_and_end_at
  reconcile_found-Coherent r inspection =
      let state = or_text (trim_space inspection.state) r.state in
      let info = merge_sandbox_runtime_info r.runtime_info inspection.info in
      update_sync-Coherent r.id (put_runtime state info 0) (get_record r.id) (λ u. pure (some u))
        (put_runtime-KeepsGood state info 0) (get_record-Coherent r.id) (λ u. search keeps_rules)

  pub reconcile_with_inspector-Coherent :
      (inspect : Inspector W) (r : SandboxRecord)
      → Keeps (CoherentIf x) (reconcile_sandbox_record_with_inspector env inspect r)
  unfolding reconcile_sandbox_record_with_inspector
  reconcile_with_inspector-Coherent inspect r =
      search (steps, reconcile_missing-Coherent, reconcile_found-Coherent)

  reconcile_live-Coherent : (r : SandboxRecord) → Keeps (CoherentIf x) (reconcile_live env r)
  unfolding reconcile_live
  reconcile_live-Coherent r = search (steps, reconcile_with_inspector-Coherent)

  reconcile_current-Coherent :
      (k : String) (r : SandboxRecord) (s : App W)
      → get k s.store ≡ some r
      → CoherentIf x s
      → CoherentIf x (reconcile_current env r s).1
  unfolding reconcile_current time_now pure ◌>>=◌
  reconcile_current-Coherent k r s here c =
      elim (Bool-cases (sandbox_record_terminally_expired r (env.clock s.ticks))) [
        | inl e ↦
            rw (e, sync_sandbox_deadline_lem)
              (sync_stored-IsCoherent k r s.store s.deadlines here c)
        | inr e ↦ rw e ((reconcile_live-Coherent r).at _ c)
      ]

  pub reconcile_locked-Coherent :
      (id : String) → Keeps (CoherentIf x) (reconcile_sandbox_record_locked env id)
  unfolding reconcile_sandbox_record_locked get_record
  reconcile_locked-Coherent id = Keeps-bind-gets (get id) _ λ s c.
      elim (Option-cases (get id s.store)) [
        | inl e ↦ rw e (unfold pure in c)
        | inr (r, e) ↦ rw e (reconcile_current-Coherent id r s e c)
      ]

  pub active_locked-Coherent :
      (id : String) → Keeps (CoherentIf x) (active_sandbox_record_locked env id)
  unfolding active_sandbox_record_locked
  active_locked-Coherent id = search (steps, reconcile_locked-Coherent)

  pub under_lock-Coherent :
      {A : Type 0} (id : String) (body : Action W A)
      → Keeps (CoherentIf x) body
      → Keeps (CoherentIf x) (under_lock env id body)
  unfolding under_lock
  under_lock-Coherent id body k = search steps

  pub active_sandbox_record-Coherent :
      (id : String) → Keeps (CoherentIf x) (active_sandbox_record env id)
  unfolding active_sandbox_record
  active_sandbox_record-Coherent id = under_lock-Coherent id _ (active_locked-Coherent id)

  pub reconcile_record-Coherent :
      (r : SandboxRecord) → Keeps (CoherentIf x) (reconcile_sandbox_record env r)
  unfolding reconcile_sandbox_record
  reconcile_record-Coherent r = search (steps, reconcile_locked-Coherent)

  pub reconcile_records-Coherent :
      (rs : List SandboxRecord) → Keeps (CoherentIf x) (reconcile_sandbox_records env rs)
  unfolding reconcile_sandbox_records
  reconcile_records-Coherent [] = search steps
  reconcile_records-Coherent (r ∷ rs) =
      Keeps-bind _ _ (reconcile_record-Coherent r)
        λ found. Keeps-bind _ _ (reconcile_records-Coherent rs) λ rest. Keeps-pure _
