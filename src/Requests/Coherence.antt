-- ===== src/Requests/Coherence.antt =====
-- Every sandbox handler keeps the store and the timers coherent, on every branch.
use e2b_local.Prelude.{ℕ, ◌<◌, String, Option, arith}
use e2b_local.Prelude.Int.{ℤ}
use e2b_local.Types.{SandboxRecord, running, add_seconds, request_timeout}
use e2b_local.Store.{
  put_end_at, later_end_at, put_runtime, set_end_at, extend_end_at,
  set_state_runtime_info_and_end_at, update,
}
use e2b_local.Store.Invariant.{
  IsNamed, KeepsGood, put_end_at-KeepsGood, later_end_at-KeepsGood, put_runtime-KeepsGood,
}
use e2b_local.Runtime.{Surroundings}
use e2b_local.App.{pure, raise, ◌>>=◌, in_store, time_now}
use e2b_local.App.Keeps.{Keeps, Keeps-bind, Keeps-raise, Keeps-pure}
use e2b_local.App.Coherence.{Debts}
use e2b_local.Lifecycle.Coherence.{
  CoherentIf, steps, in_runtime-Coherent, time_now-Coherent, update_sync-Coherent,
  delete_sandbox-Coherent, pause_sandbox_locked-Coherent, active_locked-Coherent,
  under_lock-Coherent, active_sandbox_record-Coherent,
}
use e2b_local.Requests.{
  default_get_sandbox, default_kill_sandbox, default_pause_sandbox, finish_update, resume_paused,
  default_resume_sandbox, connect_paused, extend_to, default_connect_sandbox, set_timeout_to,
  default_set_sandbox_timeout, default_refresh_sandbox, later,
}

-- What the handlers rely on: the clock has started, and a random id is not empty.
pub record IsSound {W : Type 0} (env : Surroundings W) : Type 0 where
  pub started : (n : ℕ) → 0 < env.clock n
  pub named : (n : ℕ) → IsNamed (env.random_id n)

module _ {W : Type 0} {x : Debts} (env : Surroundings W) where
  pub kill-Coherent : (id : String) → Keeps (CoherentIf x) (default_kill_sandbox env id)
  unfolding default_kill_sandbox
  kill-Coherent id =
      search (steps, under_lock-Coherent, active_locked-Coherent, delete_sandbox-Coherent)

  pub pause-Coherent : (id : String) → Keeps (CoherentIf x) (default_pause_sandbox env id)
  unfolding default_pause_sandbox
  pause-Coherent id =
      search (steps, under_lock-Coherent, active_locked-Coherent, pause_sandbox_locked-Coherent)
        depth 8

  finish_update-Coherent :
      (k : String) (f : SandboxRecord → SandboxRecord)
      → KeepsGood f
      → Keeps (CoherentIf x) (in_store (update k f) >>= finish_update env)
  unfolding finish_update
  finish_update-Coherent k f keeps =
      update_sync-Coherent k f (raise _) (λ u. pure u) keeps (Keeps-raise _) (λ u. Keeps-pure u)

  resume_paused-Coherent :
      (id : String) (timeout : Option ℤ) (r : SandboxRecord)
      → Keeps (CoherentIf x) (resume_paused env id timeout r)
  unfolding resume_paused set_state_runtime_info_and_end_at
  resume_paused-Coherent id timeout r = Keeps-bind _ _ (in_runtime-Coherent _) λ info.
      Keeps-bind _ _ (time_now-Coherent env) λ now.
        let end_at = add_seconds now (request_timeout timeout) in
        finish_update-Coherent id (put_runtime running info end_at)
          (put_runtime-KeepsGood running info end_at)

  pub resume-Coherent :
      (id : String) (timeout : Option ℤ)
      → Keeps (CoherentIf x) (default_resume_sandbox env id timeout)
  unfolding default_resume_sandbox
  resume-Coherent id timeout =
      search (steps, under_lock-Coherent, active_locked-Coherent, resume_paused-Coherent) depth 8

  connect_paused-Coherent :
      (id : String) (timeout : ℤ) (r : SandboxRecord)
      → Keeps (CoherentIf x) (connect_paused env id timeout r)
  unfolding connect_paused set_state_runtime_info_and_end_at
  connect_paused-Coherent id timeout r = Keeps-bind _ _ (in_runtime-Coherent _) λ info.
      Keeps-bind _ _ (time_now-Coherent env) λ now.
        let end_at = later r.end_at (add_seconds now timeout) in
        finish_update-Coherent id (put_runtime running info end_at)
          (put_runtime-KeepsGood running info end_at)

  extend_to-Coherent : (id : String) (timeout : ℤ) → Keeps (CoherentIf x) (extend_to env id timeout)
  unfolding extend_to extend_end_at
  extend_to-Coherent id timeout = Keeps-bind _ _ (time_now-Coherent env) λ now.
      finish_update-Coherent id (later_end_at (add_seconds now timeout))
        (later_end_at-KeepsGood (add_seconds now timeout))

  pub connect-Coherent :
      (id : String) (timeout : ℤ) → Keeps (CoherentIf x) (default_connect_sandbox env id timeout)
  unfolding default_connect_sandbox
  connect-Coherent id timeout =
      search
        (
          steps, under_lock-Coherent, active_locked-Coherent, connect_paused-Coherent,
          extend_to-Coherent,
        )
        depth 8

  pub refresh-Coherent :
      (id : String) (duration : Option ℤ)
      → Keeps (CoherentIf x) (default_refresh_sandbox env id duration)
  unfolding default_refresh_sandbox
  refresh-Coherent id duration =
      search (steps, under_lock-Coherent, active_locked-Coherent, extend_to-Coherent) depth 8

  pub get-Coherent : (id : String) → Keeps (CoherentIf x) (default_get_sandbox env id)
  unfolding default_get_sandbox
  get-Coherent id = active_sandbox_record-Coherent env id

module _ {W : Type 0} {x : Debts} (env : Surroundings W) (sound : IsSound env) where
  set_timeout_to-Coherent :
      (id : String) (timeout : ℤ) → Keeps (CoherentIf x) (set_timeout_to env id timeout)
  unfolding set_timeout_to set_end_at
  set_timeout_to-Coherent id timeout = record {
    at = λ s c.
        let end_at = add_seconds (env.clock s.ticks) timeout in
        let positive : 0 < end_at = unfold add_seconds in omega (arith, sound.started s.ticks) in
        unfold time_now in
        unfold ◌>>=◌ in
        (finish_update-Coherent env id (put_end_at end_at)
            (put_end_at-KeepsGood end_at positive)).at
          _ c;
  }

  pub set_timeout-Coherent :
      (id : String) (timeout : ℤ)
      → Keeps (CoherentIf x) (default_set_sandbox_timeout env id timeout)
  unfolding default_set_sandbox_timeout
  set_timeout-Coherent id timeout =
      search (steps, under_lock-Coherent, active_locked-Coherent, set_timeout_to-Coherent) depth 8
