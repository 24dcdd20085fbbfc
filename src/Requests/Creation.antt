-- ===== src/Requests/Creation.antt =====
-- The first part of `defaultCreateSandbox` (internal/gateway/gateway_callbacks.go), which stores the
-- sandbox and leaves its timer to the second.
use e2b_local.Prelude.{
  String, ◌≡◌, refl, Bool, true, false, ◌||◌, ◌==◌, string_eq, Option-cases, inl, inr, trim_space,
}
use e2b_local.Errors.{Error, Result, ok, err, bad_request}
use e2b_local.Types.{SandboxRecord, running}
use e2b_local.Store.Invariant.{IsGoodRecord, create-Creates, add_entry-IsGood}
use e2b_local.Runtime.{Surroundings}
use e2b_local.App.{
  App, Action, pure, raise, ◌>>=◌, continue, attempt, branch, on_result, in_runtime, create_record,
}
use e2b_local.App.Keeps.{Keeps}
use e2b_local.App.Coherence.{Debts}
use e2b_local.App.Coherence.Owed.{stored-AreCoherent}
use e2b_local.Lifecycle.Coherence.{CoherentIf, in_runtime-Coherent, time_now-Coherent}
use e2b_local.Requests.{
  is_negative_ptr, is_true_ptr, NewSandbox, new_sandbox_id, register, create_valid, create_unsynced,
}
use e2b_local.Requests.Coherence.{IsSound}

-- One more sandbox waits for its timer.
abbrev pub with_waiting : String → Debts → Debts
with_waiting id x = record x { waits = λ k. id == k || x.waits k }

-- A record that `Store.Create` has stored, and the state then.
pub record IsUnsynced {W : Type 0} (x : Debts) (q : SandboxRecord) (t : App W) : Type 0 where
  pub good : IsGoodRecord q.id q
  pub alive : q.state ≡ running
  pub coherent : CoherentIf (with_waiting q.id x) t

-- Either the first part fails and leaves the debts as they were, or there is one more.
abbrev pub Owes : {W : Type 0} → Debts → Result SandboxRecord × App W → Type 0
Owes x (ok q, t) = IsUnsynced x q t
Owes x (err e, t) = CoherentIf x t

pub record MayOwe {W : Type 0} (x : Debts) (m : Action W SandboxRecord) : Type 0 where
  pub at : (s : App W) → CoherentIf x s → Owes x (m s)

module _ {W : Type 0} {x : Debts} where
  MayOwe-raise : (e : Error) → MayOwe {W = W} x (raise e)
  unfolding raise
  MayOwe-raise e = record { at = λ s c. c }

  MayOwe-branch :
      (b : Bool) (m n : Action W SandboxRecord) → MayOwe x m → MayOwe x n → MayOwe x (branch b m n)
  MayOwe-branch true m n km kn = km
  MayOwe-branch false m n km kn = kn

  MayOwe-continue :
      {A : Type 0} (out : Result A × App W) (f : A → Action W SandboxRecord)
      → CoherentIf x out.1
      → ((a : A) → MayOwe x (f a))
      → Owes x (continue out.0 f out.1)
  MayOwe-continue (ok a, t) f c kf = (kf a).at t c
  MayOwe-continue (err e, t) f c kf = c

  MayOwe-bind :
      {A : Type 0} (m : Action W A) (f : A → Action W SandboxRecord)
      → Keeps (CoherentIf x) m
      → ((a : A) → MayOwe x (f a))
      → MayOwe x (m >>= f)
  unfolding ◌>>=◌
  MayOwe-bind m f km kf = record { at = λ s c. MayOwe-continue (m s) f (km.at s c) kf }

  MayOwe-attempt :
      {A : Type 0} (m : Action W A) (f : Result A → Action W SandboxRecord)
      → Keeps (CoherentIf x) m
      → ((r : Result A) → MayOwe x (f r))
      → MayOwe x (attempt m >>= f)
  unfolding attempt ◌>>=◌
  MayOwe-attempt m f km kf = record { at = λ s c. (kf (m s).0).at (m s).1 (km.at s c) }

  MayOwe-on_result :
      {A : Type 0} (r : Result A) (m : Error → Action W SandboxRecord)
      (f : A → Action W SandboxRecord)
      → ((e : Error) → MayOwe x (m e))
      → ((a : A) → MayOwe x (f a))
      → MayOwe x (on_result r m f)
  MayOwe-on_result (err e) m f km kf = km e
  MayOwe-on_result (ok a) m f km kf = kf a

module _ {W : Type 0} {x : Debts} (env : Surroundings W) (sound : IsSound env) where
  register-MayOwe : (r : SandboxRecord) → r.state ≡ running → MayOwe x (register env r)
  unfolding register create_record attempt in_runtime raise pure ◌>>=◌
  register-MayOwe r alive = record {
    at = λ s c.
        let made =
          create-Creates (env.random_id s.ticks) (env.clock s.ticks) r s.store (sound.named s.ticks)
            (sound.started s.ticks) in
        elim made [
          | inl (e, h) ↦ rw h c
          | inr (q, h, free, good, runs) ↦ rw h (record {
            good = good;
            alive = runs alive;
            coherent =
                stored-AreCoherent x q s.store s.deadlines (add_entry-IsGood q s.store good c.good)
                  c;
          })
        ];
  }

  new_sandbox_id-Coherent : Keeps (CoherentIf x) (new_sandbox_id env)
  unfolding new_sandbox_id raise pure
  new_sandbox_id-Coherent = record {
    at = λ s c. elim (Option-cases (env.random_id s.ticks)) [
      | inl e ↦ rw (e, new_sandbox_id) c
      | inr (id, e) ↦ rw (e, new_sandbox_id) c
    ];
  }

  create_valid-MayOwe :
      (req : NewSandbox) (template_id : String) → MayOwe x (create_valid env req template_id)
  unfolding create_valid
  create_valid-MayOwe req template_id = MayOwe-bind _ _ new_sandbox_id-Coherent λ id.
      MayOwe-bind _ _ (time_now-Coherent env) λ now.
        MayOwe-attempt _ _ (in_runtime-Coherent _) λ created.
          MayOwe-on_result created _ _ (λ e. MayOwe-raise _) (λ info. register-MayOwe _ refl)

  pub create-MayOwe : (req : NewSandbox) → MayOwe x (create_unsynced env req)
  unfolding create_unsynced
  create-MayOwe req =
      MayOwe-branch (trim_space req.template_id == "") _ _ (MayOwe-raise bad_request) (
        MayOwe-branch (is_negative_ptr req.timeout) _ _ (MayOwe-raise bad_request) (
          MayOwe-branch (is_true_ptr req.auto_resume) _ _ (MayOwe-raise bad_request)
            (create_valid-MayOwe req (trim_space req.template_id))))
