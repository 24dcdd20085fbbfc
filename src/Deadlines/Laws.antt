-- ===== src/Deadlines/Laws.antt =====
-- What each operation of the deadline manager does to the table of timers.
use text.Mathlib.TextEquality.{eq_iff}
use e2b_local.Prelude.{
  ◌+◌, ◌≤◌, ◌<◌, refl, String, ◌≡◌, Bool, true, false, Option, none, some, List, arith, ◌==◌,
  string_eq, if◌then◌else◌, nat_beq, ==-refl, ◌∷◌, Option-cases, inl, inr,
}
use e2b_local.Prelude.Dict.{lookup, insert, lookup-insert, lookup-delete}
use e2b_local.Types.{Time}
use e2b_local.Deadlines.{
  Callback, SandboxDeadline, DeadlineManager, deadline, schedule, cancel, begin_shutdown, fire,
  enter,
}

abbrev pub timer_of : String → DeadlineManager → Option SandboxDeadline
timer_of id m = lookup id m.timers

abbrev pub has_timer : String → DeadlineManager → Bool
has_timer id m = elim (lookup id m.timers) [ none ↦ false | some _ ↦ true ]

pub has_timer-schedule :
    (k j : String) (t : Time) (c : Callback) (m : DeadlineManager)
    → has_timer j (schedule k t c m)
      ≡ (if m.stopped then has_timer j m else if k == j then true else has_timer j m)
unfolding schedule
has_timer-schedule k j t c m = ground (arith, lookup-insert k j (deadline t c) m.timers, eq_iff k j)

pub has_timer-cancel :
    (k j : String) (m : DeadlineManager)
    → has_timer j (cancel k m) ≡ (if k == j then false else has_timer j m)
unfolding cancel
has_timer-cancel k j m = ground (arith, lookup-delete k j m.timers, eq_iff k j)

pub stopped-schedule :
    (k : String) (t : Time) (c : Callback) (m : DeadlineManager)
    → (schedule k t c m).stopped ≡ m.stopped
unfolding schedule
stopped-schedule k t c m = ground arith

pub stopped-cancel : (k : String) (m : DeadlineManager) → (cancel k m).stopped ≡ m.stopped
unfolding cancel
stopped-cancel k m = ground arith

-- The timer that stands after a call: the old one if it has the same time, and else a new one.
abbrev pub rescheduled : Time → Callback → Option SandboxDeadline → SandboxDeadline
rescheduled t c none = deadline t c
rescheduled t c (some d) = if nat_beq d.fire_at t then d else deadline t c

pub timer_of-schedule :
    (k : String) (t : Time) (c : Callback) (m : DeadlineManager)
    → m.stopped ≡ false
    → timer_of k (schedule k t c m) ≡ some (rescheduled t c (timer_of k m))
unfolding schedule
timer_of-schedule k t c m live =
    ground (arith, lookup-insert k k (deadline t c) m.timers, eq_iff k k)

-- Where the old timer, if there is one, is for an earlier time, a new one is armed.
pub timer_of-schedule_later :
    (k : String) (t delay : Time) (c : Callback) (m : DeadlineManager)
    → 0 < delay
    → m.stopped ≡ false
    → ((d : SandboxDeadline) → timer_of k m ≡ some d → d.fire_at ≤ t)
    → timer_of k (schedule k (t + delay) c m) ≡ some (deadline (t + delay) c)
timer_of-schedule_later k t delay c m late live past =
    rw (timer_of-schedule k (t + delay) c m live) (elim (Option-cases (timer_of k m)) [
      | inl e ↦ rw e refl
      | inr (d, e) ↦
          let other : nat_beq d.fire_at (t + delay) ≡ false = ground (arith, late, past d e) in
          rw e (rw other refl)
    ])

pub fire_at-rescheduled :
    (t : Time) (c : Callback) (o : Option SandboxDeadline) → (rescheduled t c o).fire_at ≡ t
fire_at-rescheduled t c o = ground arith

pub has_timer-fire : (k j : String) (m : DeadlineManager) → has_timer j (fire k m) ≡ has_timer j m
unfolding fire
has_timer-fire k j m = elim (Option-cases (lookup k m.timers)) [
  | inl e ↦ rw (e, fire)
  | inr (d, e) ↦
      let launched_timer : SandboxDeadline = record d { armed = false } in
      ground (arith, e, lookup-insert k j launched_timer m.timers, eq_iff k j)
]

pub stopped-fire : (k : String) (m : DeadlineManager) → (fire k m).stopped ≡ m.stopped
unfolding fire
stopped-fire k m = ground arith

-- The shutdown clears the table and sets the flag.
pub has_timer-shutdown :
    (k : String) (m : DeadlineManager) → m.stopped ≡ false → has_timer k (begin_shutdown m) ≡ false
unfolding begin_shutdown lookup
has_timer-shutdown k m e = ground (arith, e)

pub stopped-shutdown : (m : DeadlineManager) → (begin_shutdown m).stopped ≡ true
unfolding begin_shutdown
stopped-shutdown m = ground arith

pub has_timer-enter :
    (k : String) (c : Callback) (others : List Callback) (m : DeadlineManager)
    → has_timer k (enter c others m) ≡ has_timer k m
unfolding enter
has_timer-enter k c others m = ground arith

pub stopped-enter :
    (c : Callback) (others : List Callback) (m : DeadlineManager)
    → (enter c others m).stopped ≡ m.stopped
unfolding enter
stopped-enter c others m = ground arith

abbrev pub spent : SandboxDeadline → SandboxDeadline
spent d = record d { armed = false }

fire_lem :
    (id : String) (d : SandboxDeadline) (m : DeadlineManager)
    → timer_of id m ≡ some d
    → d.armed ≡ true
    → fire id m
      ≡ record m { timers = insert id (spent d) m.timers; launched = d.callback ∷ m.launched }
unfolding fire insert
fire_lem id d m here armed = rw (here, fire) (rw armed)

-- Where a timer of a running manager has fired, its entry stays in the table, not armed, and scheduling
-- the sandbox again for the same time changes nothing.
pub schedule-fire :
    (id : String) (c : Callback) (d : SandboxDeadline) (m : DeadlineManager)
    → m.stopped ≡ false
    → timer_of id m ≡ some d
    → d.armed ≡ true
    → (schedule id d.fire_at c (fire id m) ≡ fire id m) × (timer_of id (fire id m) ≡ some (spent d))
unfolding schedule
schedule-fire id c d m live here armed =
    let stays : timer_of id (fire id m) ≡ some (spent d) =
      rw (fire_lem id d m here armed, lookup-insert id id (spent d) m.timers, ==-refl id) in
    let same_time : nat_beq d.fire_at d.fire_at ≡ true = ground arith in
    let running : (fire id m).stopped ≡ false = rw (stopped-fire id m) live in
    (rw (running, stays, same_time), stays)
