-- ===== src/Metrics/Laws.antt =====
-- The metrics of internal/gateway/gateway_callbacks.go: what they keep, and what they show.
use e2b_local.Prelude.{
  ℕ, ◌≤◌, ◌<◌, String, ◌≡◌, refl, ap, Bool, false, List, [], ◌∷◌, length, none, some, Bool-cases,
  arith, trim_space, ◌==◌, string_eq, inl, inr, ltb,
}
use e2b_local.Prelude.Dict.{Dict}
use e2b_local.Prelude.Int.{ℤ, pos, negsuc}
use e2b_local.Prelude.Texts.{among}
use e2b_local.Types.{Time, SandboxRecord}
use e2b_local.Errors.{Error, bad_request}
use e2b_local.Runtime.{Surroundings, MetricsRequest, SandboxMetric}
use e2b_local.App.Coherence.{Debts}
use e2b_local.App.Keeps.{Keeps, Keeps-bind, Keeps-branch, Keeps-raise, Keeps-pure}
use e2b_local.Lifecycle.Coherence.{CoherentIf, steps, active_sandbox_record-Coherent}
use e2b_local.Metrics.{
  int_ltb, distance, less, metrics_of, validate_metrics_request, default_get_sandbox_metrics,
  add_metrics, metrics_round, metrics_loop, default_list_sandbox_metrics, count_records, or_bound,
  TeamMetric, team_metric_snapshot, window_start, window_end, created_in, api_running,
}

-- A request for metrics that is not valid is a bad one.
pub validate-bad_request :
    (req : MetricsRequest) (e : Error) → validate_metrics_request req ≡ some e → e ≡ bad_request
unfolding validate_metrics_request
validate-bad_request req e h = ground (arith, h)

module _ {W : Type 0} {x : Debts} (env : Surroundings W) where
  metrics_of-Coherent :
      (r : SandboxRecord) (req : MetricsRequest) → Keeps (CoherentIf x) (metrics_of env r req)
  unfolding metrics_of
  metrics_of-Coherent r req = search steps depth 8

  pub get_metrics-Coherent :
      (id : String) (req : MetricsRequest)
      → Keeps (CoherentIf x) (default_get_sandbox_metrics env id req)
  unfolding default_get_sandbox_metrics
  get_metrics-Coherent id req =
      search (steps, active_sandbox_record-Coherent, metrics_of-Coherent) depth 8

  add_metrics-Coherent :
      (id : String) (r : SandboxRecord) (shown : Dict String SandboxMetric)
      → Keeps (CoherentIf x) (add_metrics env id r shown)
  unfolding add_metrics
  add_metrics-Coherent id r shown = search (steps, get_metrics-Coherent) depth 8

  round-Coherent :
      (id : String) (shown : Dict String SandboxMetric)
      → Keeps (CoherentIf x) (metrics_round env id shown)
  unfolding metrics_round
  round-Coherent id shown =
      search (steps, active_sandbox_record-Coherent, add_metrics-Coherent) depth 8

  loop-Coherent :
      (ids seen : List String) (shown : Dict String SandboxMetric)
      → Keeps (CoherentIf x) (metrics_loop env ids seen shown)
  unfolding metrics_loop
  loop-Coherent [] seen shown = Keeps-pure shown
  loop-Coherent (given ∷ ids) seen shown =
      let id = trim_space given in
      Keeps-branch (id == "") _ _ (λ _. Keeps-raise _)
        λ _.
          Keeps-branch (among id seen) _ _ (λ _. loop-Coherent ids seen shown)
            λ _. Keeps-bind _ _ (round-Coherent id shown) (loop-Coherent ids (id ∷ seen))

  -- Metrics of any list of sandboxes, which reconcile their records with the runtime, leave the
  -- store and the timers coherent if they were, also where they fail.
  pub list_metrics-Coherent :
      (ids : List String) → Keeps (CoherentIf x) (default_list_sandbox_metrics env ids)
  unfolding default_list_sandbox_metrics
  list_metrics-Coherent ids = search (steps, loop-Coherent) depth 8

-- A count of records is at most their number.
pub count_records-le :
    (test : SandboxRecord → Bool) (rs : List SandboxRecord) → count_records test rs ≤ length rs
unfolding count_records
count_records-le test [] = ground arith
count_records-le test (r ∷ rs) =
    let ih = count_records-le test rs in
    elim (Bool-cases (test r)) [
      | inl e ↦ rw e (omega (arith, ih))
      | inr e ↦ rw e (omega (arith, ih))
    ]

-- A window ends where it begins, or later.
int_ltb_refl : (n : ℤ) → int_ltb n n ≡ false
unfolding int_ltb
int_ltb_refl (pos n) = ground arith
int_ltb_refl (negsuc n) = ground arith

window_ordered :
    (now : Time) (req : MetricsRequest)
    → int_ltb (window_end now req) (window_start now req) ≡ false
unfolding window_start
window_ordered now req = ground (arith, int_ltb_refl (window_end now req))

distance-less : (n : ℤ) (k : ℕ) → distance (less n k) n ≡ k
unfolding distance less
distance-less (pos n) k = elim (Bool-cases (ltb n k)) [
  | inl e ↦ rw e (ground arith)
  | inr e ↦ rw e (ground arith)
]
distance-less (negsuc n) k = ground arith

less-ordered : (n : ℤ) (k : ℕ) → int_ltb n (less n k) ≡ false
unfolding int_ltb less
less-ordered (pos n) k = elim (Bool-cases (ltb n k)) [
  | inl e ↦ rw e (ground arith)
  | inr e ↦ rw e (ground arith)
]
less-ordered (negsuc n) k = ground arith

-- What a snapshot of the team promises.
pub record IsSnapshot (now : Time) (req : MetricsRequest) (rs : List SandboxRecord) (m : TeamMetric)
    : Type 0 where
  pub running_le : m.concurrent_sandboxes ≤ length rs
  pub started_le : m.started ≤ length rs
  pub ordered : int_ltb (window_end now req) (window_start now req) ≡ false
  pub divides : 0 < m.duration
  pub minute : req.start ≡ none → m.duration ≡ 60

default_minute :
    (now : Time) (req : MetricsRequest)
    → req.start ≡ none
    → distance (window_start now req) (window_end now req) ≡ 60
unfolding window_start
default_minute now req h =
    let end = window_end now req in
    let start : or_bound (less end 60) req.start ≡ less end 60 = ap (or_bound (less end 60)) h in
    rw (start, less-ordered end 60) (distance-less end 60)

-- In the metrics of the team neither number is greater than the number of records, the window
-- does not end before it begins, the rate is not divided by zero, and without a start it is the
-- rate over the last minute of the window.
pub team_metric_snapshot_lem :
    (now : Time) (req : MetricsRequest) (rs : List SandboxRecord)
    → IsSnapshot now req rs (team_metric_snapshot now req rs)
unfolding team_metric_snapshot
team_metric_snapshot_lem now req rs = record {
  running_le = count_records-le api_running rs;
  started_le = count_records-le (created_in (window_start now req) (window_end now req)) rs;
  ordered = window_ordered now req;
  divides = ground arith;
  minute = λ h. rw (default_minute now req h) refl;
}
