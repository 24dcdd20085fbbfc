-- ===== src/Lifecycle.antt =====
-- internal/gateway/gateway_callbacks.go and sandbox_deletion.go: the actions that the sandbox
-- handlers share, each run under the sandbox's lifecycle lock.
pub mod Coherence
pub mod Laws
use e2b_local.Prelude.{
  String, Bool, true, false, not, ◌&&◌, Option, none, some, List, [], ◌∷◌, ◌==◌, string_eq,
  if◌then◌else◌, trim_space,
}
use e2b_local.Errors.{Error, Result, ok, err, not_found}
use e2b_local.Types.{SandboxRecord, paused, sandbox_record_terminally_expired}
use e2b_local.Types.Merge.{or_text, merge_sandbox_runtime_info}
use e2b_local.Store
use e2b_local.Store.{SandboxEntry}
use e2b_local.Runtime.{RuntimeCall, SandboxRuntimeInspection, Surroundings}
use e2b_local.Types.{SandboxRuntimeInfo}
use e2b_local.App.{
  App, Action, pure, raise, ◌>>=◌, ◌>>◌, attempt, branch, on_option, on_result, gets, in_store,
  in_runtime, time_now, cancel_deadline, sync_sandbox_deadline,
}

pub data SandboxRuntimeDeletePolicy : Type 0 where
  required best_effort : SandboxRuntimeDeletePolicy

pub record SandboxDeleteResult : Type 0 where
  pub deleted : Bool
  pub runtime_error : Option Error

abbrev pub error_of : Result (Unit {0}) → Option Error
error_of (ok _) = none
error_of (err e) = some e

-- The error that ends a deletion: only the required policy gives up on it.
abbrev pub blocking_error : SandboxRuntimeDeletePolicy → Option Error → Option Error
blocking_error required e = e
blocking_error best_effort e = none

abbrev pub Inspector : Type 0 → Type 0
Inspector W = SandboxRuntimeInfo → RuntimeCall W SandboxRuntimeInspection

module _ {W : Type 0} where
  unfoldable pub get_record : String → Action W (Option SandboxRecord)
  get_record id = gets (λ s. Store.get id s.store)

  -- Removes the record, and its timer if there was a record: whether there was one.
  unfoldable pub forget : String → Action W Bool
  forget id = do
    deleted ← in_store (Store.delete_record id)
    branch deleted (cancel_deadline id) (pure tt)
    pure deleted

module _ {W : Type 0} (env : Surroundings W) where
  unfoldable pub delete_sandbox :
      SandboxRecord → SandboxRuntimeDeletePolicy → Action W SandboxDeleteResult
  delete_sandbox r policy = do
    outcome ← attempt (in_runtime (env.runtime.delete_sandbox r.runtime_info))
    on_option (blocking_error policy (error_of outcome))
        (do
          deleted ← forget r.id
          pure (record { deleted = deleted; runtime_error = error_of outcome }))
        raise

  -- The result is none where the store has lost the record.
  unfoldable pub pause_sandbox_locked : SandboxRecord → Action W (Option SandboxRecord)
  pause_sandbox_locked r = do
    in_runtime (env.runtime.pause_sandbox r.runtime_info)
    updated ← in_store (Store.set_state r.id paused)
    on_option updated (pure none) (λ p. do sync_sandbox_deadline p; pure (some p))

  -- The sandbox is gone from the runtime.
  unfoldable pub reconcile_missing : SandboxRecord → Action W (Option SandboxRecord)
  reconcile_missing r = do
    result ← delete_sandbox r best_effort
    branch result.deleted (pure none) (get_record r.id)

  -- The sandbox is there: its state and addresses are copied to the store.
  unfoldable pub reconcile_found :
      SandboxRecord → SandboxRuntimeInspection → Action W (Option SandboxRecord)
  reconcile_found r inspection = do
    updated ← in_store (
        Store.set_state_and_runtime_info r.id (or_text (trim_space inspection.state) r.state)
          (merge_sandbox_runtime_info r.runtime_info inspection.info))
    on_option updated (get_record r.id) (λ u. do sync_sandbox_deadline u; pure (some u))

  unfoldable pub reconcile_sandbox_record_with_inspector :
      Inspector W → SandboxRecord → Action W (Option SandboxRecord)
  reconcile_sandbox_record_with_inspector inspect r = do
    inspection ← in_runtime (inspect r.runtime_info)
    branch inspection.exists (reconcile_found r inspection) (reconcile_missing r)

  -- A record that the clock has not retired is compared with the runtime.
  unfoldable pub reconcile_live : SandboxRecord → Action W (Option SandboxRecord)
  reconcile_live r =
      on_option env.runtime.inspector (pure (some r))
        (λ inspect. reconcile_sandbox_record_with_inspector inspect r)

  unfoldable pub reconcile_current : SandboxRecord → Action W (Option SandboxRecord)
  reconcile_current r = do
    now ← time_now env
    branch (sandbox_record_terminally_expired r now) (do sync_sandbox_deadline r; pure none)
        (reconcile_live r)

  unfoldable pub reconcile_sandbox_record_locked : String → Action W (Option SandboxRecord)
  reconcile_sandbox_record_locked id = do
    current ← get_record id
    on_option current (pure none) reconcile_current

  unfoldable pub active_sandbox_record_locked : String → Action W SandboxRecord
  active_sandbox_record_locked id = do
    found ← reconcile_sandbox_record_locked id
    on_option found (raise not_found) pure

  -- `lockSandbox`, the 404 of the handlers where there is no entry, and what they do under the lock.
  unfoldable pub under_lock : {A : Type 0} → String → Action W A → Action W A
  under_lock id body = do
    entry ← gets (λ s. Store.lock_sandbox id s.store)
    on_option entry (raise not_found) (λ _. body)

  unfoldable pub active_sandbox_record : String → Action W SandboxRecord
  active_sandbox_record id = under_lock id (active_sandbox_record_locked id)

  unfoldable pub reconcile_sandbox_record : SandboxRecord → Action W (Option SandboxRecord)
  reconcile_sandbox_record r = do
    entry ← gets (λ s. Store.lock_sandbox r.id s.store)
    on_option entry (pure none) (λ _. reconcile_sandbox_record_locked r.id)

  abbrev cons_found : Option SandboxRecord → List SandboxRecord → List SandboxRecord
  cons_found none rs = rs
  cons_found (some r) rs = r ∷ rs

  unfoldable pub reconcile_sandbox_records : List SandboxRecord → Action W (List SandboxRecord)
  reconcile_sandbox_records [] = pure []
  reconcile_sandbox_records (r ∷ rs) = do
    found ← reconcile_sandbox_record r
    rest ← reconcile_sandbox_records rs
    pure (cons_found found rest)
