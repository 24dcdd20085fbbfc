-- ===== src/App/Keeps.antt =====
-- Invariants of actions, one rule for each way to build an action.
use e2b_local.Prelude.{◌≡◌, refl, Bool, true, false, Option, none, some}
use e2b_local.Errors.{Error, Result, ok, err}
use e2b_local.Store.{SandboxStore}
use e2b_local.App.{
  App, Action, pure, raise, ◌>>=◌, continue, attempt, branch, on_option, on_result, gets,
}

-- `m` keeps `P`, whether it returns or fails.
pub record Keeps {W A : Type 0} (P : App W → Type 0) (m : Action W A) : Type 0 where
  pub at : (s : App W) → P s → P (m s).1

module _ {W A : Type 0} {P : App W → Type 0} where
  pub Keeps-pure : (a : A) → Keeps P (pure a)
  unfolding pure
  Keeps-pure a = record { at = λ t kept. kept }

  pub Keeps-attempt : (m : Action W A) → Keeps P m → Keeps P (attempt m)
  unfolding attempt
  Keeps-attempt m k = record { at = λ s h. k.at s h }

  pub Keeps-raise : (e : Error) → Keeps P (raise {A = A} e)
  unfolding raise
  Keeps-raise e = record { at = λ t kept. kept }

  pub Keeps-branch :
      (b : Bool) (m n : Action W A)
      → (b ≡ true → Keeps P m)
      → (b ≡ false → Keeps P n)
      → Keeps P (branch b m n)
  Keeps-branch true m n km kn = km refl
  Keeps-branch false m n km kn = kn refl

  pub Keeps-gets : (f : App W → A) → Keeps P (gets f)
  unfolding gets
  Keeps-gets f = record { at = λ t kept. kept }

module _ {W A B : Type 0} {P : App W → Type 0} where
  pub Keeps-on_option :
      (o : Option A) (m : Action W B) (f : A → Action W B)
      → Keeps P m
      → ((a : A) → o ≡ some a → Keeps P (f a))
      → Keeps P (on_option o m f)
  Keeps-on_option none m f km kf = km
  Keeps-on_option (some a) m f km kf = kf a refl

  pub Keeps-on_result :
      (r : Result A) (m : Error → Action W B) (f : A → Action W B)
      → ((e : Error) → Keeps P (m e))
      → ((a : A) → Keeps P (f a))
      → Keeps P (on_result r m f)
  Keeps-on_result (err e) m f km kf = km e
  Keeps-on_result (ok a) m f km kf = kf a

  Keeps-continue :
      (r : Result A) (f : A → Action W B) → ((a : A) → Keeps P (f a)) → Keeps P (continue r f)
  Keeps-continue (ok a) f kf = kf a
  Keeps-continue (err e) f kf = record { at = λ t kept. kept }

  pub Keeps-bind :
      (m : Action W A) (f : A → Action W B)
      → Keeps P m
      → ((a : A) → Keeps P (f a))
      → Keeps P (m >>= f)
  unfolding ◌>>=◌
  Keeps-bind m f km kf = record {
    at = λ t kept. let (r, t') = m t in (Keeps-continue r f kf).at t' (km.at t kept);
  }

  -- A read of the store, where the rest may use what was read.
  pub Keeps-bind-gets :
      (g : SandboxStore → A) (f : A → Action W B)
      → ((s : App W) → P s → P (f (g s.store) s).1)
      → Keeps P (gets (λ s. g s.store) >>= f)
  unfolding ◌>>=◌ gets
  Keeps-bind-gets g f kf = record { at = kf }

pub ruleset keeps_rules = (
  Keeps-pure, Keeps-raise, Keeps-gets, Keeps-attempt, Keeps-branch, Keeps-on_option,
  Keeps-on_result, Keeps-bind,
)
