-- ===== src/Tests/Sandboxes.antt =====
-- The theorems on sandboxes, at one sandbox.
use e2b_local.Prelude.{
  ℕ, none, ◌+◌, ◌*◌, ◌≤◌, ◌≡◌, ◌≢◌, refl, true, false, some, List, [], ◌∷◌, arith, inr, ◌⊎◌,
}
use e2b_local.Prelude.Int.{pos}
use e2b_local.Prelude.Dict.{lookup, insert}
use e2b_local.Errors.{Result, ok, err, plain}
use e2b_local.Types.{
  Time, SandboxRecord, second, sandbox_record_terminally_expired, timeout_action_from_auto_pause,
  internet_access_policy_from_bool_ptr,
}
use e2b_local.Store.{get, new_sandbox_store}
use e2b_local.Deadlines.{
  schedule, Callback, SandboxDeadline, DeadlineManager, deadline, fire,
  new_sandbox_deadline_manager,
}
use e2b_local.Deadlines.Laws.{timer_of, spent, schedule-fire}
use e2b_local.Runtime.{SandboxRuntimeInspection}
use e2b_local.App.{App}
use e2b_local.App.Coherence.{AreCoherent}
use e2b_local.App.Effects.{IsLocal, IsForgotten}
use e2b_local.History.{
  get as get_request, Event, creates, ends, about, kill, pause, resume, measure, fires, expires,
  shutdown, connect, serve, run, new_gateway,
}
use e2b_local.History.Coherence.{debts, run-AreCoherent}
use e2b_local.History.Expired.{IsRefused, serve-IsRefused}
use e2b_local.Expiry.{expire_sandbox}
use e2b_local.Expiry.Laws.{
  IsDue, expire-stale, expire-early, expire-killed, expire-retried, expire-paused,
}
use e2b_local.Requests.{default_kill_sandbox, default_refresh_sandbox, default_set_sandbox_timeout}
use e2b_local.Requests.Laws.{
  IsAlive, IsMovedTo, kill_ok, kill_refused, refresh_lem, set_timeout_lem,
}
use e2b_local.Metrics.{team_metric_snapshot}
use e2b_local.Metrics.Laws.{IsSnapshot, team_metric_snapshot_lem}
use e2b_local.Tests.{
  willing, found, inspecting, stubborn, surroundings, early, early-IsSound, request, box, acting,
  holding,
}

-- A sandbox is stored and listed before its creation ends; it is paused and resumed, its timer fires,
-- the callback runs, it is killed, another creation is overtaken by a kill, and the gateway stops.
abbrev story : List Event
story =
    creates request
    ∷ about "box" get_request
    ∷ ends 0
    ∷ about "box" pause
    ∷ about "box" (resume (some (pos 5)))
    ∷ fires "box"
    ∷ expires (record { sandbox_id = "box"; expected_end_at = 11 * second })
    ∷ about "box" (connect (pos 9))
    ∷ about "box" (measure (record { start = none; end = none }))
    ∷ about "box" kill
    ∷ creates request
    ∷ about "box" kill
    ∷ ends 0
    ∷ shutdown
    ∷ []

run-AreCoherent_example :
    AreCoherent
      (debts (run early story (new_gateway 0)))
      (run early story (new_gateway 0)).app.store
      (run early story (new_gateway 0)).app.deadlines
run-AreCoherent_example = run-AreCoherent early early-IsSound 0 story

-- At the hundredth second, past the deadline of the fiftieth.
abbrev late : Time
late = 100 * second

abbrev old : SandboxRecord
old = box (50 * second)

old-here : get "box" (holding old).store ≡ some old
unfolding get lookup insert new_sandbox_store timeout_action_from_auto_pause
    internet_access_policy_from_bool_ptr
old-here = refl

old-over : sandbox_record_terminally_expired old late ≡ true
unfolding sandbox_record_terminally_expired timeout_action_from_auto_pause
old-over = refl

serve-IsRefused_example :
    IsRefused
      (holding old)
      (serve (surroundings willing late) "box" (connect (pos 60)) (holding old))
serve-IsRefused_example =
    serve-IsRefused (surroundings willing late) "box" old (holding old) old-here old-over
      (connect (pos 60))

expire-stale_example :
    expire_sandbox (surroundings willing late) "box" (40 * second) (holding old)
    ≡ (ok tt, holding old)
expire-stale_example =
    expire-stale (surroundings willing late) (40 * second) old (holding old) old-here (inr stale)
  where
    stale : 50 * second ≢ 40 * second
    stale = omega arith

old-IsDue : IsDue (surroundings willing late) (holding old) (50 * second) old
old-IsDue = record { alive = refl; current = refl; late = omega arith }

abbrev young : SandboxRecord
young = box (150 * second)

young-here : get "box" (holding young).store ≡ some young
unfolding get lookup insert new_sandbox_store timeout_action_from_auto_pause
    internet_access_policy_from_bool_ptr
young-here = refl

expire-early_example :
    (expire_sandbox (surroundings willing late) "box" (150 * second) (holding young)
      ≡ (ok tt, holding young))
    ⊎ (expire_sandbox (surroundings willing late) "box" (150 * second) (holding young)
        ≡ (ok tt, record (holding young) { ticks = 1 }))
expire-early_example =
    expire-early (surroundings willing late) (150 * second) young (holding young) young-here
      (omega arith)

expire-killed_example :
    ((expire_sandbox (surroundings willing late) "box" (50 * second) (holding old)).0 ≡ ok tt)
    × IsForgotten "box"
        (holding old).store
        (holding old).deadlines
        (expire_sandbox (surroundings willing late) "box" (50 * second) (holding old)).1.store
        (expire_sandbox (surroundings willing late) "box" (50 * second) (holding old)).1.deadlines
unfolding timeout_action_from_auto_pause
expire-killed_example =
    expire-killed (surroundings willing late) (50 * second) old (holding old) old-here old-IsDue
      refl tt refl

stubborn-IsDue : IsDue (surroundings stubborn late) (holding old) (50 * second) old
stubborn-IsDue = record { alive = refl; current = refl; late = omega arith }

old-untimed :
    (d : SandboxDeadline)
    → timer_of "box" (holding old).deadlines ≡ some d
    → d.fire_at ≤ (surroundings stubborn late).clock 1
unfolding new_sandbox_deadline_manager lookup
old-untimed d h = absurd (cc h)

old-live : (holding old).deadlines.stopped ≡ false
unfolding new_sandbox_deadline_manager
old-live = refl

expire-retried_example :
    ((expire_sandbox (surroundings stubborn late) "box" (50 * second) (holding old)).0 ≡ ok tt)
    × ((expire_sandbox (surroundings stubborn late) "box" (50 * second) (holding old)).1.store
        ≡ (holding old).store)
    × (timer_of "box"
          (expire_sandbox
            (surroundings stubborn late)
            "box"
            (50 * second)
            (holding old)).1.deadlines
        ≡ some (record {
          fire_at = 101 * second + 5_000_000_000;
          callback = record { sandbox_id = "box"; expected_end_at = 50 * second };
          armed = true;
        }))
    × IsLocal "box"
        (holding old).store
        (holding old).deadlines
        (expire_sandbox (surroundings stubborn late) "box" (50 * second) (holding old)).1.store
        (expire_sandbox (surroundings stubborn late) "box" (50 * second) (holding old)).1.deadlines
unfolding timeout_action_from_auto_pause
expire-retried_example =
    expire-retried (surroundings stubborn late) (50 * second) old (holding old) old-here
      stubborn-IsDue refl (plain "busy") refl old-live old-untimed

abbrev keeper : SandboxRecord
keeper = acting "pause" old

keeper-here : get "box" (holding keeper).store ≡ some keeper
unfolding get lookup insert new_sandbox_store internet_access_policy_from_bool_ptr
keeper-here = refl

expire-paused_example :
    ((expire_sandbox (surroundings willing late) "box" (50 * second) (holding keeper)).0 ≡ ok tt)
    × (get "box"
          (expire_sandbox (surroundings willing late) "box" (50 * second) (holding keeper)).1.store
        ≡ some (record keeper { state = "paused" }))
    × (timer_of "box"
          (expire_sandbox
            (surroundings willing late)
            "box"
            (50 * second)
            (holding keeper)).1.deadlines
        ≡ none)
    × IsLocal "box"
        (holding keeper).store
        (holding keeper).deadlines
        (expire_sandbox (surroundings willing late) "box" (50 * second) (holding keeper)).1.store
        (expire_sandbox
          (surroundings willing late)
          "box"
          (50 * second)
          (holding keeper)).1.deadlines
expire-paused_example =
    expire-paused (surroundings willing late) (50 * second) keeper (holding keeper) keeper-here
      (record { alive = refl; current = refl; late = omega arith }) tt refl refl refl

abbrev seen_young : SandboxRuntimeInspection
seen_young = record { info = young.runtime_info; state = "running"; exists = true }

young-IsAlive : IsAlive (surroundings inspecting late) (holding young) young found seen_young
unfolding sandbox_record_terminally_expired timeout_action_from_auto_pause
young-IsAlive = record {
  here = young-here;
  fresh = refl;
  inspects = refl;
  answer = refl;
  exists = refl;
}

abbrev killed : Result (Unit {0}) × App ℕ
killed = default_kill_sandbox (surroundings inspecting late) "box" (holding young)

kill_ok_example :
    (killed.0 ≡ ok tt)
    × IsForgotten "box"
        (holding young).store
        (holding young).deadlines
        killed.1.store
        killed.1.deadlines
kill_ok_example =
    kill_ok (surroundings inspecting late) young (holding young) found seen_young young-IsAlive tt
      refl

stubborn-IsAlive : IsAlive (surroundings stubborn late) (holding young) young found seen_young
unfolding sandbox_record_terminally_expired timeout_action_from_auto_pause
stubborn-IsAlive = record {
  here = young-here;
  fresh = refl;
  inspects = refl;
  answer = refl;
  exists = refl;
}

abbrev spared : Result (Unit {0}) × App ℕ
spared = default_kill_sandbox (surroundings stubborn late) "box" (holding young)

kill_refused_example :
    (spared.0 ≡ err (plain "busy"))
    × IsMovedTo "box" (150 * second) (holding young).store spared.1.store
    × IsLocal "box"
        (holding young).store
        (holding young).deadlines
        spared.1.store
        spared.1.deadlines
kill_refused_example =
    kill_refused (surroundings stubborn late) young (holding young) found seen_young
      stubborn-IsAlive (plain "busy") refl

abbrev refreshed : Result (Unit {0}) × App ℕ
refreshed =
    default_refresh_sandbox (surroundings inspecting late) "box" (some (pos 20)) (holding young)

refresh_lem_example :
    (refreshed.0 ≡ ok tt)
    × ((end_at : Time) × IsMovedTo "box" end_at (holding young).store refreshed.1.store
        × (150 * second ≤ end_at)
        × (101 * second + 20 * 1_000_000_000 ≤ end_at)
        × ((end_at ≡ 150 * second) ⊎ (end_at ≡ 101 * second + 20 * 1_000_000_000)))
refresh_lem_example =
    refresh_lem (surroundings inspecting late) young (holding young) found seen_young young-IsAlive
      20 (omega arith)

abbrev reset : Result (Unit {0}) × App ℕ
reset = default_set_sandbox_timeout (surroundings inspecting late) "box" (pos 7) (holding young)

set_timeout_lem_example :
    (reset.0 ≡ ok tt)
    × IsMovedTo "box" (101 * second + 7 * 1_000_000_000) (holding young).store reset.1.store
set_timeout_lem_example =
    set_timeout_lem (surroundings inspecting late) young (holding young) found seen_young
      young-IsAlive 7

-- A timer for the fiftieth second, which fires and is scheduled again for the same time.
abbrev alarm : Callback
alarm = record { sandbox_id = "box"; expected_end_at = 50 * second }

abbrev watched : DeadlineManager
watched = schedule "box" (50 * second) alarm new_sandbox_deadline_manager

watched-timer : timer_of "box" watched ≡ some (deadline (50 * second) alarm)
unfolding schedule new_sandbox_deadline_manager lookup insert
watched-timer = refl

watched-live : watched.stopped ≡ false
unfolding schedule new_sandbox_deadline_manager lookup
watched-live = refl

schedule-fire_example :
    (schedule "box" (50 * second) alarm (fire "box" watched) ≡ fire "box" watched)
    × (timer_of "box" (fire "box" watched) ≡ some (spent (deadline (50 * second) alarm)))
schedule-fire_example =
    schedule-fire "box" alarm (deadline (50 * second) alarm) watched watched-live watched-timer refl

-- Without a start and an end, at the hundredth second.
team_metric_snapshot_lem_example :
    IsSnapshot late
      (record { start = none; end = none })
      (old ∷ [])
      (team_metric_snapshot late (record { start = none; end = none }) (old ∷ []))
team_metric_snapshot_lem_example =
    team_metric_snapshot_lem late (record { start = none; end = none }) (old ∷ [])
