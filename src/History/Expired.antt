-- ===== src/History/Expired.antt =====
-- A kill-on-timeout sandbox that has reached its deadline cannot be brought back by a request.
use e2b_local.Prelude.{
  suc, String, ◌≡◌, refl, Bool, true, false, some, ◌⊎◌, inl, inr, Option-cases, string_eq,
}
use e2b_local.Prelude.Int.{is_negative}
use e2b_local.Errors.{Result, ok, err, not_found, bad_request}
use e2b_local.Types.{SandboxRecord, sandbox_record_terminally_expired, request_timeout}
use e2b_local.Prelude.Dict.{lookup}
use e2b_local.Store.{get, lock_sandbox}
use e2b_local.Runtime.{Surroundings, MetricsRequest}
use e2b_local.Metrics.{validate_metrics_request, default_get_sandbox_metrics}
use e2b_local.Metrics.Laws.{validate-bad_request}
use e2b_local.App.{App, Action, pure, raise, ◌>>=◌, continue, branch, gets, time_now}
use e2b_local.Lifecycle.{
  reconcile_current, reconcile_sandbox_record_locked, active_sandbox_record_locked, under_lock,
  get_record, active_sandbox_record,
}
use e2b_local.Lifecycle.Coherence.{sync_sandbox_deadline_lem}
use e2b_local.App.Coherence.{synced}
use e2b_local.Requests.{
  default_get_sandbox, default_kill_sandbox, default_pause_sandbox, default_resume_sandbox,
  default_connect_sandbox, default_set_sandbox_timeout, default_refresh_sandbox, is_negative_ptr,
  exceeds_hour,
}
use e2b_local.History.{
  Request, get as get_request, kill, pause, resume, refresh, connect, set_timeout, measure, serve,
  done,
}

-- The request failed by one of two errors, and touched neither the records nor the runtime.
pub record IsRefused {W A : Type 0} (s : App W) (out : Result A × App W) : Type 0 where
  pub answer : (out.0 ≡ err not_found) ⊎ (out.0 ≡ err bad_request)
  pub same_store : out.1.store ≡ s.store
  pub same_world : out.1.world ≡ s.world

module _ {W : Type 0} (env : Surroundings W) (id : String) (r : SandboxRecord) (s : App W) where
  -- The state after the look at the record: the clock was read, and the timer follows the record.
  abbrev looked : App W
  looked = record s { ticks = suc s.ticks; deadlines = synced r s.deadlines }

  module _ (here : get id s.store ≡ some r)
      (over : sandbox_record_terminally_expired r (env.clock s.ticks) ≡ true) where
    active_locked-expired : active_sandbox_record_locked env id s ≡ (err not_found, looked)
    unfolding active_sandbox_record_locked reconcile_sandbox_record_locked reconcile_current
        get_record gets time_now raise pure ◌>>=◌
    active_locked-expired = rw (here, over, sync_sandbox_deadline_lem) refl

    locked : {A : Type 0} (body : Action W A) → under_lock env id body s ≡ body s
    unfolding under_lock gets get lock_sandbox ◌>>=◌
    locked body = elim (Option-cases (lookup id s.store.sandboxes)) [
      | inl e ↦ absurd (cc (e, here))
      | inr (entry, e) ↦ rw e
    ]

    under_lock-expired :
        {A : Type 0} (k : SandboxRecord → Action W A)
        → under_lock env id (active_sandbox_record_locked env id >>= k) s ≡ (err not_found, looked)
    under_lock-expired k =
        rw (locked (active_sandbox_record_locked env id >>= k))
          (unfold ◌>>=◌ in rw active_locked-expired refl)

    IsRefused-looked :
        {A : Type 0} (out : Result A × App W) → out ≡ (err not_found, looked) → IsRefused s out
    IsRefused-looked out e =
        rw e (record { answer = inl refl; same_store = refl; same_world = refl })

    IsRefused-branch :
        {A : Type 0} (b : Bool) (m : Action W A)
        → IsRefused s (m s)
        → IsRefused s (branch b (raise bad_request) m s)
    unfolding raise
    IsRefused-branch true m h = record { answer = inr refl; same_store = refl; same_world = refl }
    IsRefused-branch false m h = h

    IsRefused-continue :
        {A B : Type 0} (out : Result A × App W) (f : A → Action W B)
        → IsRefused s out
        → IsRefused s (continue out.0 f out.1)
    IsRefused-continue (ok a, t) f h = elim h.answer [ inl e ↦ absurd cc | inr e ↦ absurd cc ]
    IsRefused-continue (err e, t) f h = record {
      answer = elim h.answer [ inl q ↦ inl (cc q) | inr q ↦ inr (cc q) ];
      same_store = h.same_store;
      same_world = h.same_world;
    }

    IsRefused-done : {A : Type 0} (m : Action W A) → IsRefused s (m s) → IsRefused s (done m s)
    unfolding ◌>>=◌
    IsRefused-done m h = IsRefused-continue (m s) (λ _. pure tt) h

    -- The shape of the handlers: a look at the record under the lock comes first.
    looks :
        {A : Type 0} (k : SandboxRecord → Action W A)
        → IsRefused s (under_lock env id (active_sandbox_record_locked env id >>= k) s)
    looks k = IsRefused-looked _ (under_lock-expired k)

    guarded :
        {A : Type 0} (b : Bool) (k : SandboxRecord → Action W A)
        → IsRefused s (
            branch b
              (raise bad_request)
              (under_lock env id (active_sandbox_record_locked env id >>= k))
              s)
    guarded b k =
        IsRefused-branch b (under_lock env id (active_sandbox_record_locked env id >>= k)) (looks k)

    measure-IsRefused :
        (req : MetricsRequest) → IsRefused s (default_get_sandbox_metrics env id req s)
    unfolding default_get_sandbox_metrics active_sandbox_record raise ◌>>=◌
    measure-IsRefused req = elim (Option-cases (validate_metrics_request req)) [
      | inl e ↦
          rw (e, locked (active_sandbox_record_locked env id), active_locked-expired)
            (record { answer = inl refl; same_store = refl; same_world = refl })
      | inr (q, e) ↦
          rw (e, validate-bad_request req q e)
            (record { answer = inr refl; same_store = refl; same_world = refl })
    ]

    -- A sandbox that is running, past its deadline by the clock, and not to be paused then: every
    -- request about it is answered with 404, or with 400 if its arguments are out of range, and
    -- neither the store nor the runtime is changed.
    pub serve-IsRefused : (req : Request) → IsRefused s (serve env id req s)
    unfolding serve default_get_sandbox active_sandbox_record default_kill_sandbox
        default_pause_sandbox default_resume_sandbox default_connect_sandbox
        default_set_sandbox_timeout default_refresh_sandbox
    serve-IsRefused get_request =
        IsRefused-done (under_lock env id (active_sandbox_record_locked env id)) (
          IsRefused-looked _
            (rw (locked (active_sandbox_record_locked env id)) active_locked-expired))
    serve-IsRefused kill = looks _
    serve-IsRefused pause = IsRefused-done (default_pause_sandbox env id) (looks _)
    serve-IsRefused (resume t) =
        IsRefused-done (default_resume_sandbox env id t) (guarded (is_negative_ptr t) _)
    serve-IsRefused (refresh t) =
        IsRefused-branch (is_negative (request_timeout t)) _
          (guarded (exceeds_hour (request_timeout t)) _)
    serve-IsRefused (connect t) =
        IsRefused-done (default_connect_sandbox env id t) (guarded (is_negative t) _)
    serve-IsRefused (set_timeout t) = guarded (is_negative t) _
    serve-IsRefused (measure req) =
        IsRefused-done (default_get_sandbox_metrics env id req) (measure-IsRefused req)
