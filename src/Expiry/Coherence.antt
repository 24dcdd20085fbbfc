-- ===== src/Expiry/Coherence.antt =====
-- The callbacks of the timers, the restore and the passes over all records keep the store and the
-- timers coherent.
use mathlib.Core.Path.{subst}
use text.Mathlib.TextEquality.{eq_iff}
use e2b_local.Prelude.{
  String, ◌≡◌, ◌≢◌, refl, sym, false, Option, none, some, ◌==◌, string_eq, not, ◌||◌, nat_beq, ltb,
  Bool-cases, Option-cases, inl, inr,
}
use e2b_local.Errors.{Result, ok, err}
use e2b_local.Types.{
  Time, SandboxRecord, running, normalize, timeout_action_kill, timeout_action_pause,
}
use e2b_local.Store.{get, lock_sandbox}
use e2b_local.Store.Invariant.{normalize-cases}
use e2b_local.Runtime.{Surroundings}
use e2b_local.App.{
  App, pure, ◌>>=◌, attempt, on_option, on_result, in_deadlines, time_now, cancel_deadline,
  schedule_deadline,
}
use e2b_local.App.Keeps.{Keeps, Keeps-bind-gets}
use e2b_local.App.Coherence.{Debts, cancel_absent-IsCoherent, schedule_stored-IsCoherent}
use e2b_local.Lifecycle.Laws.{pause_locked-err, pause_locked-ok}
use e2b_local.Lifecycle.{pause_sandbox_locked, get_record}
use e2b_local.Lifecycle.Coherence.{
  CoherentIf, steps, delete_sandbox-Coherent, pause_sandbox_locked-Coherent,
  reconcile_with_inspector-Coherent,
}
use e2b_local.Expiry.{
  schedule_expiry_retry, after_failed_pause, expire_by_pause, expire_by_kill, expire_action,
  expire_current, expire_sandbox_locked, expire_sandbox,
}

-- A normalized action is one of the two.
unknown_action :
    (r : SandboxRecord)
    → normalize r.on_timeout ≡ some r.on_timeout
    → (r.on_timeout == timeout_action_pause) ≡ false
    → (r.on_timeout == timeout_action_kill) ≡ false
    → ⊥
unknown_action r n p k = elim (normalize-cases r.on_timeout r.on_timeout n) [
  | inl e ↦ cc ((eq_iff r.on_timeout timeout_action_kill).1 e)
  | inr e ↦ cc ((eq_iff r.on_timeout timeout_action_pause).1 e)
]

module _ {W : Type 0} (env : Surroundings W) where
  -- Under the lock the record is there, so the pause does not lose it.
  pub pause_locked-keeps :
      (r q : SandboxRecord) (s : App W)
      → get r.id s.store ≡ some q
      → (pause_sandbox_locked env r s).0 ≢ ok none
  pause_locked-keeps r q s here none_left =
      by_call (env.runtime.pause_sandbox r.runtime_info s.world).0 refl
    where
      by_call :
          (o : Result (Unit {0})) → (env.runtime.pause_sandbox r.runtime_info s.world).0 ≡ o → ⊥
      by_call (err e) h = cc (pause_locked-err env r q s e h, none_left)
      by_call (ok t) h = cc (pause_locked-ok env r q s t h here, none_left)

module _ {W : Type 0} {x : Debts} (env : Surroundings W) where
  retry-Coherent :
      (id : String) (expected : Time) → Keeps (CoherentIf x) (schedule_expiry_retry env id expected)
  unfolding schedule_expiry_retry get_record
  retry-Coherent id expected = Keeps-bind-gets (get id) _ λ s c.
      elim (Option-cases (get id s.store)) [
        | inl e ↦ rw e (
            unfold cancel_deadline in_deadlines in
            cancel_absent-IsCoherent id s.store s.deadlines e c)
        | inr (r, e) ↦ rw e (
            unfold time_now schedule_deadline in_deadlines ◌>>=◌ in
            schedule_stored-IsCoherent id _ _ r s.store s.deadlines e c)
      ]

  after_failed_pause-Coherent :
      (id : String) (expected : Time) (r : SandboxRecord)
      → Keeps (CoherentIf x) (after_failed_pause env id expected r)
  unfolding after_failed_pause
  after_failed_pause-Coherent id expected r =
      search (steps, retry-Coherent, reconcile_with_inspector-Coherent) depth 9

  paused_by_expiry :
      (id : String) (expected : Time) (r : SandboxRecord) (outcome : Result (Option SandboxRecord))
      (s : App W)
      → outcome ≢ ok none
      → CoherentIf x s
      → CoherentIf x
          (on_result outcome
            (λ _. after_failed_pause env id expected r)
            (λ updated. on_option updated (cancel_deadline id) (λ _. pure tt))
            s).1
  unfolding pure
  paused_by_expiry id expected r (err e) s h c = (after_failed_pause-Coherent id expected r).at s c
  paused_by_expiry id expected r (ok none) s h c = absurd (h refl)
  paused_by_expiry id expected r (ok (some q)) s h c = c

  expire_by_pause-Coherent :
      (id : String) (expected : Time) (r : SandboxRecord) (s : App W)
      → get id s.store ≡ some r
      → CoherentIf x s
      → CoherentIf x (expire_by_pause env id expected r s).1
  unfolding expire_by_pause attempt ◌>>=◌
  expire_by_pause-Coherent id expected r s here c =
      let keyed : r.id ≡ id = (c.good.at id r here).keyed in
      let kept =
        pause_locked-keeps env r r s (subst (λ k. get k s.store ≡ some r) (sym keyed) here) in
      let (outcome, s') = pause_sandbox_locked env r s in
      paused_by_expiry id expected r outcome s' kept ((pause_sandbox_locked-Coherent env r).at s c)

  expire_by_kill-Coherent :
      (id : String) (expected : Time) (r : SandboxRecord)
      → Keeps (CoherentIf x) (expire_by_kill env id expected r)
  unfolding expire_by_kill
  expire_by_kill-Coherent id expected r =
      search (steps, retry-Coherent, delete_sandbox-Coherent) depth 8

  expire_action-Coherent :
      (id : String) (expected : Time) (r : SandboxRecord) (s : App W)
      → get id s.store ≡ some r
      → CoherentIf x s
      → CoherentIf x (expire_action env id expected r s).1
  unfolding expire_action
  expire_action-Coherent id expected r s here c =
      elim (Bool-cases (r.on_timeout == timeout_action_pause)) [
        | inl p ↦ rw p (expire_by_pause-Coherent id expected r s here c)
        | inr p ↦ elim (Bool-cases (r.on_timeout == timeout_action_kill)) [
          | inl k ↦ rw (p, k) ((expire_by_kill-Coherent id expected r).at s c)
          | inr k ↦ absurd (unknown_action r (c.good.at id r here).normal p k)
        ]
      ]

  expire_current-Coherent :
      (id : String) (expected : Time) (r : SandboxRecord) (s : App W)
      → get id s.store ≡ some r
      → CoherentIf x s
      → CoherentIf x (expire_current env id expected r s).1
  unfolding expire_current time_now pure ◌>>=◌
  expire_current-Coherent id expected r s here c =
      elim (Bool-cases (not (r.state == running) || not (nat_beq r.end_at expected))) [
        | inl stale ↦ rw stale c
        | inr current ↦ elim (Bool-cases (ltb (env.clock s.ticks) r.end_at)) [
          | inl early ↦ rw (current, early) c
          | inr due ↦ rw (current, due) (expire_action-Coherent id expected r _ here c)
        ]
      ]

  cancel_missing :
      (id : String) (s : App W)
      → get id s.store ≡ none
      → CoherentIf x s
      → CoherentIf x (cancel_deadline id s).1
  unfolding cancel_deadline in_deadlines
  cancel_missing id s e c = cancel_absent-IsCoherent id s.store s.deadlines e c

  expire_locked-Coherent :
      (id : String) (expected : Time) → Keeps (CoherentIf x) (expire_sandbox_locked env id expected)
  unfolding expire_sandbox_locked get_record
  expire_locked-Coherent id expected = Keeps-bind-gets (get id) _ λ s c.
      elim (Option-cases (get id s.store)) [
        | inl e ↦ rw e (cancel_missing id s e c)
        | inr (r, e) ↦ rw e (expire_current-Coherent id expected r s e c)
      ]

  pub expire-Coherent :
      (id : String) (expected : Time) → Keeps (CoherentIf x) (expire_sandbox env id expected)
  unfolding expire_sandbox
  expire-Coherent id expected = Keeps-bind-gets (lock_sandbox id) _ λ s c.
      elim (Option-cases (lock_sandbox id s.store)) [
        | inl e ↦ rw e (cancel_missing id s (unfold get lock_sandbox in rw e) c)
        | inr (entry, e) ↦ rw e ((expire_locked-Coherent id expected).at s c)
      ]
