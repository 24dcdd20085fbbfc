-- ===== src/Expiry.antt =====
-- internal/gateway/sandbox_deadlines.go: what the callback of a timer does. And the passes over all
-- records: `restoreSandboxDeadlines`, the restore of server.go, and `defaultKillTeamSandboxes`.
pub mod Coherence
pub mod Laws
pub mod Restore
use e2b_local.Prelude.{
  ℕ, ◌+◌, ◌*◌, String, Bool, true, false, not, ◌||◌, Option, none, some, List, [], ◌∷◌, ltb,
  nat_beq, ◌==◌, string_eq, if◌then◌else◌, trim_space,
}
use e2b_local.Errors.{Error, Result, ok, err}
use e2b_local.Types.{
  Time, second, SandboxRecord, running, paused, is_zero_time, default_sandbox_end_at, normalize,
  timeout_action_kill, timeout_action_pause,
}
use e2b_local.Types.Merge.{merge_sandbox_runtime_info}
use e2b_local.Store
use e2b_local.Store.{with_action}
use e2b_local.Runtime.{Surroundings}
use e2b_local.App.{
  App, Action, pure, ◌>>=◌, ◌>>◌, attempt, branch, on_option, on_result, gets, in_store, time_now,
  create_record, cancel_deadline, schedule_deadline, sync_sandbox_deadline,
}
use e2b_local.Lifecycle.{
  required, delete_sandbox, pause_sandbox_locked, get_record, reconcile_sandbox_record,
  reconcile_sandbox_record_with_inspector,
}
use e2b_local.Requests.{default_kill_sandbox}

abbrev pub sandbox_expiry_retry_delay : Time
sandbox_expiry_retry_delay = 5 * second

module _ {W : Type 0} (env : Surroundings W) where
  unfoldable pub schedule_expiry_retry : String → Time → Action W (Unit {0})
  schedule_expiry_retry id expected = do
    found ← get_record id
    on_option found (cancel_deadline id) (λ _. do
      now ← time_now env
      schedule_deadline id (now + sandbox_expiry_retry_delay) expected)

  -- After a failed pause: the runtime may say that the sandbox is gone, or paused after all.
  unfoldable pub after_failed_pause : String → Time → SandboxRecord → Action W (Unit {0})
  after_failed_pause id expected r =
      on_option env.runtime.inspector (schedule_expiry_retry id expected) λ inspect. do
        outcome ← attempt (reconcile_sandbox_record_with_inspector env inspect r)
        on_result outcome (λ _. schedule_expiry_retry id expected)
            (λ found.
              on_option found (pure tt)
                (λ u. branch (u.state == paused) (pure tt) (schedule_expiry_retry id expected)))

  unfoldable pub expire_by_pause : String → Time → SandboxRecord → Action W (Unit {0})
  expire_by_pause id expected r = do
    outcome ← attempt (pause_sandbox_locked env r)
    on_result outcome (λ _. after_failed_pause id expected r)
        (λ updated. on_option updated (cancel_deadline id) (λ _. pure tt))

  unfoldable pub expire_by_kill : String → Time → SandboxRecord → Action W (Unit {0})
  expire_by_kill id expected r = do
    outcome ← attempt (delete_sandbox env r required)
    on_result outcome (λ _. schedule_expiry_retry id expected) (λ _. pure tt)

  unfoldable pub expire_action : String → Time → SandboxRecord → Action W (Unit {0})
  expire_action id expected r =
      branch (r.on_timeout == timeout_action_pause) (expire_by_pause id expected r) (
        branch (r.on_timeout == timeout_action_kill) (expire_by_kill id expected r)
          (cancel_deadline id))

  unfoldable pub expire_current : String → Time → SandboxRecord → Action W (Unit {0})
  expire_current id expected r =
      branch (not (r.state == running) || not (nat_beq r.end_at expected)) (pure tt)
        do now ← time_now env; branch (ltb now r.end_at) (pure tt) (expire_action id expected r)

  unfoldable pub expire_sandbox_locked : String → Time → Action W (Unit {0})
  expire_sandbox_locked id expected = do
    found ← get_record id
    on_option found (cancel_deadline id) (expire_current id expected)

  unfoldable pub expire_sandbox : String → Time → Action W (Unit {0})
  expire_sandbox id expected = do
    entry ← gets (λ s. Store.lock_sandbox id s.store)
    on_option entry (cancel_deadline id) (λ _. expire_sandbox_locked id expected)

  unfoldable pub sync_all : List SandboxRecord → Action W (Unit {0})
  sync_all [] = pure tt
  sync_all (r ∷ rs) = do sync_sandbox_deadline r; sync_all rs

  unfoldable pub restore_sandbox_deadlines : Action W (Unit {0})
  restore_sandbox_deadlines = do records ← gets (λ s. Store.list s.store); sync_all records

  abbrev enriched : SandboxRecord → Time → SandboxRecord
  enriched r created = record r {
    created_at = created;
    end_at = if is_zero_time r.end_at then default_sandbox_end_at created else r.end_at;
    state = if trim_space r.state == "" then running else r.state;
  }

  -- The clock is read only for a record without a creation time.
  unfoldable pub enrich_restored_sandbox_record : SandboxRecord → Action W SandboxRecord
  enrich_restored_sandbox_record r = do
    created ← branch (is_zero_time r.created_at) (time_now env) (pure r.created_at)
    let r' = enriched r created
    λ s. (with_action (normalize r.on_timeout) r', s)

  -- One record of `restoreRuntimeSandboxes`: whether it is there at the end.
  unfoldable pub restore_one : SandboxRecord → Action W Bool
  restore_one record_of = do
    r ← enrich_restored_sandbox_record record_of
    existing ← get_record r.id
    created ← on_option existing (create_record env r) (λ old. do
      updated ← in_store (
          Store.set_state_runtime_info_and_end_at r.id r.state
            (merge_sandbox_runtime_info old.runtime_info r.runtime_info) r.end_at)
      on_option updated (pure r) pure)
    found ← reconcile_sandbox_record env created
    on_option found (pure false) (λ _. pure true)

  abbrev add_one : Bool → ℕ → ℕ
  add_one b n = if b then n + 1 else n

  -- How many records were restored.
  unfoldable pub restore_runtime_sandboxes : List SandboxRecord → Action W ℕ
  restore_runtime_sandboxes [] = pure 0
  restore_runtime_sandboxes (r ∷ rs) = do
    there ← restore_one r
    n ← restore_runtime_sandboxes rs
    pure (add_one there n)

  abbrev count_kill : Result (Unit {0}) → ℕ × ℕ → ℕ × ℕ
  count_kill (ok _) (killed, failed) = (killed + 1, failed)
  count_kill (err _) (killed, failed) = (killed, failed + 1)

  unfoldable pub kill_each : List SandboxRecord → Action W (ℕ × ℕ)
  kill_each [] = pure (0, 0)
  kill_each (r ∷ rs) = do
    outcome ← attempt (default_kill_sandbox env r.id)
    counts ← kill_each rs
    pure (count_kill outcome counts)

  -- The numbers of killed sandboxes and of failures.
  unfoldable pub default_kill_team_sandboxes : Action W (ℕ × ℕ)
  default_kill_team_sandboxes = do records ← gets (λ s. Store.list s.store); kill_each records
