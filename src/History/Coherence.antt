-- ===== src/History/Coherence.antt =====
-- After any history the store and the timers agree.
use mathlib.Core.Path.{subst}
use e2b_local.Prelude.{
  ℕ, zero, suc, String, ◌≡◌, refl, Bool, true, false, some, List, [], ◌∷◌, ◌||◌, ◌==◌, string_eq,
  ◌⊎◌, inl, inr, All, Option-cases, arith, ==-refl,
}
use e2b_local.Prelude.Dict.{lookup}
use e2b_local.Prelude.Texts.{among}
use e2b_local.Errors.{Result, ok, err}
use e2b_local.Types.{SandboxRecord, running}
use e2b_local.Store.{get, new_sandbox_store}
use e2b_local.Store.Invariant.{IsGoodRecord}
use e2b_local.Deadlines.{new_sandbox_deadline_manager}
use e2b_local.Deadlines.Laws.{has_timer-fire, stopped-fire, has_timer-enter, stopped-enter}
use e2b_local.Runtime.{Surroundings}
use e2b_local.App.{App}
use e2b_local.App.Keeps.{Keeps, keeps_rules}
use e2b_local.App.Coherence.{Debts, AreCoherent, same_timers-IsCoherent, shutdown-IsCoherent}
use e2b_local.App.Coherence.Owed.{late_sync-AreCoherent}
use e2b_local.Lifecycle.Coherence.{CoherentIf, reconcile_record-Coherent, sync_sandbox_deadline_lem}
use e2b_local.Requests.Coherence.{
  IsSound, get-Coherent, kill-Coherent, pause-Coherent, resume-Coherent, connect-Coherent,
  set_timeout-Coherent, refresh-Coherent,
}
use e2b_local.Requests.Creation.{Owes, create-MayOwe}
use e2b_local.Metrics.Laws.{get_metrics-Coherent}
use e2b_local.Expiry.Coherence.{expire-Coherent}
use e2b_local.History.{
  Request, get as get_request, kill, pause, resume, refresh, connect, set_timeout, measure, Event,
  creates, ends, about, reconciles, fires, enters, expires, shutdown, Gateway, take_nth, begin,
  finish, serve, step_app, step, run, new_app, new_gateway,
}

-- A creation for this id has stored its record, and has not ended.
abbrev pub waiting : String → List SandboxRecord → Bool
waiting k [] = false
waiting k (q ∷ qs) = q.id == k || waiting k qs

abbrev pub debts : {W : Type 0} → Gateway W → Debts
debts g = record { waits = λ k. waiting k g.creating; late = λ k. among k g.late }

abbrev IsNew : SandboxRecord → Type 0
IsNew q = IsGoodRecord q.id q × (q.state ≡ running)

pub record IsReached {W : Type 0} (g : Gateway W) : Type 0 where
  pub coherent : CoherentIf (debts g) g.app
  pub new : All IsNew g.creating

take_nth-waiting :
    (n : ℕ) (qs : List SandboxRecord) (r : SandboxRecord) (rest : List SandboxRecord) (k : String)
    → take_nth n qs ≡ some (r, rest)
    → waiting k rest ≡ false
    → ((r.id == k) ≡ true) ⊎ (waiting k qs ≡ false)
unfolding take_nth
take_nth-waiting n [] r rest k h w = absurd (cc h)
take_nth-waiting zero (q ∷ qs) r rest k h w = ground (arith, h, w)
take_nth-waiting (suc n) (q ∷ qs) r rest k h w = elim (Option-cases (take_nth n qs)) [
  | inl e ↦ absurd (cc (rw e at h))
  | inr ((v, vs), e) ↦ ground (arith, rw e at h, w, take_nth-waiting n qs v vs k e)
]

take_nth-All :
    (n : ℕ) (qs : List SandboxRecord) (r : SandboxRecord) (rest : List SandboxRecord)
    → take_nth n qs ≡ some (r, rest)
    → All IsNew qs
    → IsNew r × All IsNew rest
unfolding take_nth
take_nth-All n [] r rest h a = absurd (cc h)
take_nth-All zero (q ∷ qs) r rest h (new, a) =
    let first : SandboxRecord × List SandboxRecord = (q, qs) in
    let taken : SandboxRecord × List SandboxRecord = (r, rest) in
    let same : first ≡ taken = cc h in subst (λ p. IsNew p.0 × All IsNew p.1) same (new, a)
take_nth-All (suc n) (q ∷ qs) r rest h (new, a) = elim (Option-cases (take_nth n qs)) [
  | inl e ↦ absurd (cc (rw e at h))
  | inr ((v, vs), e) ↦
      let (v_new, vs_new) = take_nth-All n qs v vs e a in
      let found : SandboxRecord × List SandboxRecord = (v, q ∷ vs) in
      let taken : SandboxRecord × List SandboxRecord = (r, rest) in
      let same : found ≡ taken = cc (rw e at h) in
      subst (λ p. IsNew p.0 × All IsNew p.1) same (v_new, (new, vs_new))
]

module _ {W : Type 0} {x : Debts} (env : Surroundings W) (sound : IsSound env) where
  serve-Coherent : (id : String) (req : Request) → Keeps (CoherentIf x) (serve env id req)
  unfolding serve
  serve-Coherent id get_request = search (keeps_rules, get-Coherent)
  serve-Coherent id kill = kill-Coherent env id
  serve-Coherent id pause = search (keeps_rules, pause-Coherent)
  serve-Coherent id (resume timeout) = search (keeps_rules, resume-Coherent)
  serve-Coherent id (refresh duration) = refresh-Coherent env id duration
  serve-Coherent id (connect timeout) = search (keeps_rules, connect-Coherent)
  serve-Coherent id (set_timeout timeout) = set_timeout-Coherent env sound id timeout
  serve-Coherent id (measure req) = search (keeps_rules, get_metrics-Coherent)

  step_app-Coherent : (e : Event) (s : App W) → CoherentIf x s → CoherentIf x (step_app env e s)
  unfolding step_app
  step_app-Coherent (creates req) s c = c
  step_app-Coherent (ends n) s c = c
  step_app-Coherent (about id req) s c = (serve-Coherent id req).at s c
  step_app-Coherent (reconciles r) s c = (reconcile_record-Coherent env r).at s c
  step_app-Coherent (fires id) s c =
      same_timers-IsCoherent s.store s.deadlines _ (λ k. has_timer-fire id k s.deadlines)
        (stopped-fire id s.deadlines) c
  step_app-Coherent (enters callback others) s c =
      same_timers-IsCoherent s.store s.deadlines _
        (λ k. has_timer-enter k callback others s.deadlines)
        (stopped-enter callback others s.deadlines) c
  step_app-Coherent (expires callback) s c =
      (expire-Coherent env callback.sandbox_id callback.expected_end_at).at s c
  step_app-Coherent shutdown s c = shutdown-IsCoherent s.store s.deadlines c

module _ {W : Type 0} where
  begin-IsReached :
      (g : Gateway W) (out : Result SandboxRecord × App W)
      → All IsNew g.creating
      → Owes (debts g) out
      → IsReached (begin out g)
  begin-IsReached g (ok q, t) new o = record {
    coherent = o.coherent;
    new = ((o.good, o.alive), new);
  }
  begin-IsReached g (err e, t) new c = record { coherent = c; new = new }

  finish-IsReached :
      (n : ℕ) (g : Gateway W) → IsReached g → IsReached (finish (take_nth n g.creating) g)
  finish-IsReached n g h = elim (Option-cases (take_nth n g.creating)) [
    | inl e ↦ rw e h
    | inr ((r, rest), e) ↦
        let ((good, alive), new) = take_nth-All n g.creating r rest e h.new in
        let done : Gateway W = finish (some (r, rest)) g in
        let agree : AreCoherent (debts done) done.app.store done.app.deadlines =
          rw (sync_sandbox_deadline_lem) (
            late_sync-AreCoherent (debts g) (debts done) r g.app.store g.app.deadlines good alive
              (λ k. take_nth-waiting n g.creating r rest k e) (λ k. ground arith)
              (λ l gone. ground (arith, l, gone, ==-refl r.id)) h.coherent) in
        rw e (record { coherent = agree; new = new })
  ]

module _ {W : Type 0} (env : Surroundings W) (sound : IsSound env) where
  step-IsReached : (e : Event) (g : Gateway W) → IsReached g → IsReached (step env e g)
  unfolding step
  step-IsReached (creates req) g h =
      begin-IsReached g _ h.new ((create-MayOwe env sound req).at g.app h.coherent)
  step-IsReached (ends n) g h = finish-IsReached n g h
  step-IsReached (about id req) g h = record {
    coherent = step_app-Coherent env sound (about id req) g.app h.coherent;
    new = h.new;
  }
  step-IsReached (reconciles r) g h = record {
    coherent = step_app-Coherent env sound (reconciles r) g.app h.coherent;
    new = h.new;
  }
  step-IsReached (fires id) g h = record {
    coherent = step_app-Coherent env sound (fires id) g.app h.coherent;
    new = h.new;
  }
  step-IsReached (enters callback others) g h = record {
    coherent = step_app-Coherent env sound (enters callback others) g.app h.coherent;
    new = h.new;
  }
  step-IsReached (expires callback) g h = record {
    coherent = step_app-Coherent env sound (expires callback) g.app h.coherent;
    new = h.new;
  }
  step-IsReached shutdown g h = record {
    coherent = step_app-Coherent env sound shutdown g.app h.coherent;
    new = h.new;
  }

  run-IsReached : (es : List Event) (g : Gateway W) → IsReached g → IsReached (run env es g)
  unfolding run
  run-IsReached [] g h = h
  run-IsReached (e ∷ es) g h = run-IsReached es (step env e g) (step-IsReached e g h)

  new_gateway-IsReached : (world : W) → IsReached (new_gateway world)
  unfolding new_gateway new_app new_sandbox_store new_sandbox_deadline_manager get lookup
  new_gateway-IsReached world = record {
    coherent = record {
      good = record { at = λ k r h. cc; once = tt };
      watch = λ k. record { watched = λ _ h _. cc; known = λ _ h. cc; quiet = λ _. refl };
    };
    new = tt;
  }

  -- After any sequence of steps of a gateway that started with an empty store: no id is stored
  -- twice; each record is stored under its own id, which is not empty, with a deadline and a known
  -- timeout action; each running sandbox has an entry in the table of timers, unless the manager
  -- was shut down or the creation of the sandbox has not come to its `syncSandboxDeadline`; each
  -- entry belongs to a stored sandbox, or to one that was deleted before its creation came to that
  -- call; and after a shutdown the table is empty. The clock never reads 0, and no random id is
  -- empty.
  pub run-AreCoherent :
      (world : W) (es : List Event)
      → AreCoherent
          (debts (run env es (new_gateway world)))
          (run env es (new_gateway world)).app.store
          (run env es (new_gateway world)).app.deadlines
  run-AreCoherent world es =
      (run-IsReached es (new_gateway world) (new_gateway-IsReached world)).coherent
