-- ===== src/Metrics.antt =====
-- internal/gateway/gateway_callbacks.go: the metrics of sandboxes and of the team, and the local
-- node. A load that the source gives as a constant zero is left out.
pub mod Laws
pub mod Nodes
use e2b_local.Prelude.{
  ℕ, zero, suc, ◌+◌, ◌-◌, ◌*◌, ◌/◌, String, Bool, true, false, not, ◌&&◌, Option, none, some, List,
  [], ◌∷◌, ltb, length, if◌then◌else◌, ◌==◌, string_eq, trim_space, equal_fold,
}
use e2b_local.Prelude.Int.{ℤ, pos, negsuc, is_negative}
use e2b_local.Prelude.Dict.{Dict, insert}
use e2b_local.Prelude.Texts.{among}
use e2b_local.Errors.{Error, Result, ok, err, bad_request, not_found, as_not_found_gateway_error}
use e2b_local.Types.{Time, second, SandboxRecord, is_zero_time, default_envd_version}
use e2b_local.Store
use e2b_local.Management.{ManagementStore, node_status, set_node_status}
use e2b_local.Runtime.{Surroundings, MetricsRequest, SandboxMetric}
use e2b_local.App.{
  App, Action, pure, raise, ◌>>=◌, attempt, branch, on_option, on_result, gets, in_runtime,
  time_now,
}
use e2b_local.Lifecycle.{active_sandbox_record}

-- `<` on signed numbers.
unfoldable pub int_ltb : ℤ → ℤ → Bool
int_ltb (pos a) (pos b) = ltb a b
int_ltb (pos a) (negsuc b) = false
int_ltb (negsuc a) (pos b) = true
int_ltb (negsuc a) (negsuc b) = ltb b a

-- A signed number less a natural one.
unfoldable pub less : ℤ → ℕ → ℤ
less (pos n) k = if ltb n k then negsuc (k - n - 1) else pos (n - k)
less (negsuc n) k = negsuc (n + k)

-- The distance from the first to the second, and 0 where the second is not the greater.
unfoldable pub distance : ℤ → ℤ → ℕ
distance (pos a) (pos b) = b - a
distance (pos a) (negsuc b) = 0
distance (negsuc a) (pos b) = suc (a + b)
distance (negsuc a) (negsuc b) = a - b

-- `Time.Unix`, in seconds: Go's zero time is the first of January of the year 1.
unfoldable pub unix : Time → ℤ
unix t = if is_zero_time t then negsuc 62_135_596_799 else pos (t / second)

abbrev pub negative_bound : Option ℤ → Bool
negative_bound none = false
negative_bound (some n) = is_negative n

abbrev pub starts_after : Option ℤ → Option ℤ → Bool
starts_after none end = false
starts_after (some a) none = false
starts_after (some a) (some b) = int_ltb b a

-- `validateMetricsRequest` and `validateTeamMetricsRequest`: none where the request is valid.
unfoldable pub validate_metrics_request : MetricsRequest → Option Error
validate_metrics_request req =
    if negative_bound req.start
    then some bad_request
    else if negative_bound req.end
    then some bad_request
    else if starts_after req.start req.end
    then some bad_request
    else none

abbrev before_start : Option ℤ → ℤ → Bool
before_start none at = false
before_start (some a) at = int_ltb at a

abbrev after_end : Option ℤ → ℤ → Bool
after_end none at = false
after_end (some b) at = int_ltb b at

-- `metricMatchesRange` and `teamMetricMatchesRange`, of the time of a metric.
unfoldable pub matches_range : ℤ → MetricsRequest → Bool
matches_range at req = if before_start req.start at then false else not (after_end req.end at)

abbrev or_when_positive : ℤ → ℤ → ℤ
or_when_positive fallback n = if int_ltb (pos 0) n then n else fallback

abbrev in_bytes : ℤ → ℤ
in_bytes (pos n) = pos (n * 1024 * 1024)
in_bytes (negsuc n) = negsuc (suc n * 1024 * 1024 - 1)

unfoldable pub sandbox_cpu_count : SandboxRecord → ℤ
sandbox_cpu_count r = or_when_positive (pos 1) r.cpu_count

unfoldable pub sandbox_disk_size_mb : SandboxRecord → ℤ
sandbox_disk_size_mb r = or_when_positive (pos 0) r.disk_size_mb

unfoldable pub sandbox_memory_mb : SandboxRecord → ℤ
sandbox_memory_mb r = or_when_positive (pos 512) r.memory_mb

unfoldable pub sandbox_metric_from_record : SandboxRecord → Time → SandboxMetric
sandbox_metric_from_record r now = record {
  cpu_count = sandbox_cpu_count r;
  disk_total = in_bytes (sandbox_disk_size_mb r);
  mem_total = in_bytes (sandbox_memory_mb r);
  timestamp = now;
  timestamp_unix = unix now;
}

-- `apiSandboxState`: whatever is not paused counts as running.
unfoldable pub api_running : SandboxRecord → Bool
api_running r = not (equal_fold r.state "paused")

abbrev pub last_metric : List SandboxMetric → Option SandboxMetric
last_metric [] = none
last_metric (m ∷ ms) = let rest = last_metric ms in if ltb 0 (length ms) then rest else some m

abbrev pub with_metric :
    String → Option SandboxMetric → Dict String SandboxMetric → Dict String SandboxMetric
with_metric id none shown = shown
with_metric id (some m) shown = insert id m shown

module _ {W : Type 0} (env : Surroundings W) where
  abbrev own_metrics : SandboxRecord → MetricsRequest → Action W (List SandboxMetric)
  own_metrics r req = do
    now ← time_now env
    let metric = sandbox_metric_from_record r now
    branch (matches_range metric.timestamp_unix req) (pure (metric ∷ [])) (pure [])

  unfoldable pub metrics_of : SandboxRecord → MetricsRequest → Action W (List SandboxMetric)
  metrics_of r req =
      on_option env.runtime.metrics (own_metrics r req) (λ call. in_runtime (call r req))

  unfoldable pub default_get_sandbox_metrics :
      String → MetricsRequest → Action W (List SandboxMetric)
  default_get_sandbox_metrics id req =
      on_option (validate_metrics_request req)
        (active_sandbox_record env id >>= λ r. metrics_of r req) (λ e. raise e)

  -- The metrics of one more id, where the sandbox was found.
  unfoldable pub add_metrics :
      String → SandboxRecord → Dict String SandboxMetric → Action W (Dict String SandboxMetric)
  add_metrics id r shown =
      branch (api_running r)
        (default_get_sandbox_metrics id (record { start = none; end = none }) >>= λ ms.
          pure (with_metric id (last_metric ms) shown))
        (pure shown)

  -- The round of the loop for an id that was not seen yet.
  unfoldable pub metrics_round :
      String → Dict String SandboxMetric → Action W (Dict String SandboxMetric)
  metrics_round id shown = do
    found ← attempt (active_sandbox_record env id)
    on_result found (λ e. branch (as_not_found_gateway_error e) (pure shown) (raise e))
        (λ r. add_metrics id r shown)

  unfoldable pub metrics_loop :
      List String → List String → Dict String SandboxMetric → Action W (Dict String SandboxMetric)
  metrics_loop [] seen shown = pure shown
  metrics_loop (given ∷ ids) seen shown =
      let id = trim_space given in
      branch (id == "") (raise bad_request) (
        branch (among id seen) (metrics_loop ids seen shown)
          (metrics_round id shown >>= metrics_loop ids (id ∷ seen)))

  unfoldable pub default_list_sandbox_metrics : List String → Action W (Dict String SandboxMetric)
  default_list_sandbox_metrics ids =
      branch (not (ltb 0 (length ids))) (raise bad_request)
        (branch (ltb 100 (length ids)) (raise bad_request) (metrics_loop ids [] []))

-- A metric of the team. The rate stands as its two parts: the sandboxes that were started, and the
-- seconds that they are divided by.
pub record TeamMetric : Type 0 where
  pub concurrent_sandboxes : ℕ
  pub started : ℕ
  pub duration : ℕ
  pub timestamp : Time
  pub timestamp_unix : ℤ

abbrev pub or_bound : ℤ → Option ℤ → ℤ
or_bound fallback none = fallback
or_bound fallback (some n) = n

unfoldable pub window_end : Time → MetricsRequest → ℤ
window_end now req = or_bound (unix now) req.end

unfoldable pub window_start : Time → MetricsRequest → ℤ
window_start now req =
    let start = or_bound (less (window_end now req) 60) req.start in
    if int_ltb (window_end now req) start then window_end now req else start

unfoldable pub count_records : (SandboxRecord → Bool) → List SandboxRecord → ℕ
count_records test [] = 0
count_records test (r ∷ rs) = let rest = count_records test rs in if test r then suc rest else rest

-- Created in the window from the first to the second time, both included.
unfoldable pub created_in : ℤ → ℤ → SandboxRecord → Bool
created_in start end r =
    not (int_ltb (unix r.created_at) start) && not (int_ltb end (unix r.created_at))

unfoldable pub team_metric_snapshot : Time → MetricsRequest → List SandboxRecord → TeamMetric
team_metric_snapshot now req rs =
    let start = window_start now req in
    let end = window_end now req in
    let duration = distance start end in
    record {
      concurrent_sandboxes = count_records api_running rs;
      started = count_records (created_in start end) rs;
      duration = if ltb 0 duration then duration else 1;
      timestamp = now;
      timestamp_unix = unix now;
    }

pub record TeamMetricMax : Type 0 where
  pub value : ℕ
  pub divided_by : ℕ
  pub timestamp : Time
  pub timestamp_unix : ℤ

abbrev pub team_max : ℕ → ℕ → Time → TeamMetricMax
team_max value divided_by now = record {
  value = value;
  divided_by = divided_by;
  timestamp = now;
  timestamp_unix = unix now;
}

module _ {W : Type 0} (env : Surroundings W) where
  unfoldable pub default_get_team_metrics : MetricsRequest → Action W (List TeamMetric)
  default_get_team_metrics req =
      on_option (validate_metrics_request req)
        (do
          now ← time_now env
          rs ← gets (λ s. Store.list s.store)
          let metric = team_metric_snapshot now req rs
          branch (matches_range metric.timestamp_unix req) (pure (metric ∷ [])) (pure []))
        (λ e. raise e)

  -- The name of the metric is the third field of `TeamMetricMaxRequest`.
  unfoldable pub default_get_team_metric_max : MetricsRequest → String → Action W TeamMetricMax
  default_get_team_metric_max req name =
      on_option (validate_metrics_request req)
        (do
          now ← time_now env
          rs ← gets (λ s. Store.list s.store)
          let metric = team_metric_snapshot now req rs
          branch (name == "concurrent_sandboxes")
              (pure (team_max metric.concurrent_sandboxes 1 now))
              (branch (name == "sandbox_start_rate")
                (pure (team_max metric.started metric.duration now)) (raise bad_request)))
        (λ e. raise e)
