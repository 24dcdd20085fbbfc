-- ===== src/Expiry/Laws.antt =====
-- What a timer's callback does, by the state that it finds under the lock.
use text.Mathlib.TextEquality.{eq_iff}
use e2b_local.Prelude.{
  suc, ◌+◌, ◌≤◌, ◌<◌, String, ◌≡◌, ◌≢◌, refl, true, false, none, not, ==-refl, ◌||◌, some, arith,
  ◌==◌, string_eq, nat_beq, ltb, Option-cases, Bool-cases, inl, inr, ◌⊎◌,
}
use e2b_local.Prelude.Dict.{lookup}
use e2b_local.Errors.{Error, Result, ok, err}
use e2b_local.Types.{
  Time, SandboxRecord, running, paused, timeout_action_kill, timeout_action_pause,
}
use e2b_local.Store.{get, lock_sandbox, delete_record, update, put_state}
use e2b_local.Store.Laws.{result-delete, has_record, get-update}
use e2b_local.Deadlines.{SandboxDeadline, schedule, cancel}
use e2b_local.Deadlines.Laws.{timer_of, timer_of-schedule_later}
use e2b_local.Runtime.{Surroundings}
use e2b_local.App.{
  App, pure, raise, ◌>>=◌, attempt, gets, in_store, in_runtime, in_deadlines, time_now,
  cancel_deadline, schedule_deadline,
}
use e2b_local.App.Coherence.{synced}
use e2b_local.App.Effects.{
  IsLocal, IsForgotten, IsLocal-refl, forget-IsForgotten, update-IsLocal, timer_of-cancel,
  timer_of-schedule_other,
}
use e2b_local.Lifecycle.{get_record, delete_sandbox, forget}
use e2b_local.Lifecycle.Laws.{pause_locked-ok}
use e2b_local.Expiry.{
  schedule_expiry_retry, expire_by_pause, expire_by_kill, expire_action, expire_current,
  expire_sandbox_locked, expire_sandbox, sandbox_expiry_retry_delay,
}

-- The record is the one that the callback was set for, and its time has come.
pub record IsDue {W : Type 0} (env : Surroundings W) (s : App W) (expected : Time)
    (r : SandboxRecord) : Type 0 where
  pub alive : r.state ≡ running
  pub current : r.end_at ≡ expected
  pub late : r.end_at ≤ env.clock s.ticks

is_kill : (a : String) → a ≡ timeout_action_kill → (a == timeout_action_kill) ≡ true
is_kill a e = rw e refl

not_pause : (a : String) → a ≡ timeout_action_kill → (a == timeout_action_pause) ≡ false
not_pause a e = rw e refl

is_pause : (a : String) → a ≡ timeout_action_pause → (a == timeout_action_pause) ≡ true
is_pause a e = rw e refl

-- A sandbox that stands in the store under its id.
module _ {W : Type 0} (env : Surroundings W) (expected : Time) (r : SandboxRecord) (s : App W)
    (here : get r.id s.store ≡ some r) where
  opened : expire_sandbox env r.id expected s ≡ expire_current env r.id expected r s
  unfolding expire_sandbox expire_sandbox_locked get_record gets get lock_sandbox ◌>>=◌
  opened = elim (Option-cases (lookup r.id s.store.sandboxes)) [
    | inl e ↦ absurd (cc (e, here))
    | inr (entry, e) ↦ rw (e, here) refl
  ]

  stored : has_record r.id s.store ≡ true
  stored = rw (here, has_record) refl

  not_current :
      (r.state ≢ running) ⊎ (r.end_at ≢ expected)
      → (not (r.state == running) || not (nat_beq r.end_at expected)) ≡ true
  not_current (inl h) = ground (arith, eq_iff r.state running, h)
  not_current (inr h) = ground (arith, h)

  -- A callback whose sandbox is stored, but no longer running, or has got another deadline since the callback was
  -- set, changes nothing at all.
  pub expire-stale :
      (r.state ≢ running) ⊎ (r.end_at ≢ expected) → expire_sandbox env r.id expected s ≡ (ok tt, s)
  unfolding expire_current pure
  expire-stale h = rw opened (rw (not_current h))

  -- A callback that finds its sandbox stored, before its deadline by the clock, only reads the clock, or does nothing.
  pub expire-early :
      env.clock s.ticks < r.end_at
      → (expire_sandbox env r.id expected s ≡ (ok tt, s))
        ⊎ (expire_sandbox env r.id expected s ≡ (ok tt, record s { ticks = suc s.ticks }))
  unfolding expire_current pure time_now ◌>>=◌
  expire-early h =
      let early : ltb (env.clock s.ticks) r.end_at ≡ true = ground (arith, h) in
      elim (Bool-cases (not (r.state == running) || not (nat_beq r.end_at expected))) [
        | inl stale ↦ inl (rw opened (rw stale))
        | inr current ↦ inr (rw opened (rw (current, early)))
      ]

  module _ (due : IsDue env s expected r) where
    abbrev clocked : App W
    clocked = record s { ticks = suc s.ticks }

    due-opened : expire_sandbox env r.id expected s ≡ expire_action env r.id expected r clocked
    unfolding expire_current time_now ◌>>=◌
    due-opened = rw opened (rw (current, passed) refl)
      where
        current : (not (r.state == running) || not (nat_beq r.end_at expected)) ≡ false
        current = ground (arith, eq_iff r.state running, due.alive, due.current)

        passed : ltb (env.clock s.ticks) r.end_at ≡ false
        passed = ground (arith, due.late)

    abbrev kill_call : Result (Unit {0}) × W
    kill_call = env.runtime.delete_sandbox r.runtime_info s.world

    module _ (kills : r.on_timeout ≡ timeout_action_kill) where
      killed :
          (t : Unit {0})
          → kill_call.0 ≡ ok t
          → expire_sandbox env r.id expected s ≡ (
            ok tt,
            record s {
              ticks = suc s.ticks;
              world = kill_call.1;
              store = (delete_record r.id s.store).1;
              deadlines = cancel r.id s.deadlines;
            },
          )
      unfolding expire_action expire_by_kill delete_sandbox forget in_runtime in_store attempt
          cancel_deadline in_deadlines pure ◌>>=◌
      killed t h = rw due-opened (
          rw
            (
              not_pause r.on_timeout kills,
              is_kill r.on_timeout kills,
              h,
              result-delete r.id s.store,
              stored,
            )
            refl)

      -- The callback is due, the stored sandbox is to be killed, and the runtime deletes it: the
      -- callback succeeds, the store has no such sandbox and the table no timer for it, and the
      -- other records and timers are as they were.
      pub expire-killed :
          (t : Unit {0})
          → kill_call.0 ≡ ok t
          → ((expire_sandbox env r.id expected s).0 ≡ ok tt)
            × IsForgotten r.id s.store s.deadlines
                (expire_sandbox env r.id expected s).1.store
                (expire_sandbox env r.id expected s).1.deadlines
      expire-killed t h = rw (killed t h) (
        refl,
        forget-IsForgotten r.id s.store s.deadlines s.store s.deadlines
            (IsLocal-refl r.id s.store s.deadlines),
      )

      retried :
          (e : Error)
          → kill_call.0 ≡ err e
          → expire_sandbox env r.id expected s ≡ (
            ok tt,
            record s {
              ticks = suc (suc s.ticks);
              world = kill_call.1;
              deadlines =
                  schedule r.id
                    (env.clock (suc s.ticks) + sandbox_expiry_retry_delay)
                    (record { sandbox_id = r.id; expected_end_at = expected })
                    s.deadlines;
            },
          )
      unfolding expire_action expire_by_kill delete_sandbox in_runtime attempt raise
          schedule_expiry_retry get_record gets time_now schedule_deadline in_deadlines ◌>>=◌
      retried e h =
          rw due-opened
            (rw (not_pause r.on_timeout kills, is_kill r.on_timeout kills, h, here) refl)

      -- The callback is due, the stored sandbox is to be killed, and the runtime fails to delete it,
      -- while the manager is not stopped and the table has no entry for this sandbox at a time after
      -- the clock's next reading: the callback succeeds, every record and every other timer is as it
      -- was, and a new timer is armed, with the same callback, five seconds after that reading.
      pub expire-retried :
          (e : Error)
          → kill_call.0 ≡ err e
          → s.deadlines.stopped ≡ false
          → ((d : SandboxDeadline)
              → timer_of r.id s.deadlines ≡ some d
              → d.fire_at ≤ env.clock (suc s.ticks))
          → ((expire_sandbox env r.id expected s).0 ≡ ok tt)
            × ((expire_sandbox env r.id expected s).1.store ≡ s.store)
            × (timer_of r.id (expire_sandbox env r.id expected s).1.deadlines
                ≡ some (record {
                  fire_at = env.clock (suc s.ticks) + 5_000_000_000;
                  callback = record { sandbox_id = r.id; expected_end_at = expected };
                  armed = true;
                }))
            × IsLocal r.id s.store s.deadlines
                (expire_sandbox env r.id expected s).1.store
                (expire_sandbox env r.id expected s).1.deadlines
      expire-retried e h live past = rw (retried e h) (
        refl,
        refl,
        timer_of-schedule_later r.id (env.clock (suc s.ticks)) 5_000_000_000
            (record { sandbox_id = r.id; expected_end_at = expected }) s.deadlines (omega arith)
            live past,
        record {
          records = λ j e. refl;
          timers = λ j e.
              timer_of-schedule_other r.id j (env.clock (suc s.ticks) + 5_000_000_000)
                (record { sandbox_id = r.id; expected_end_at = expected }) s.deadlines e;
        },
      )

    paused_by :
        (t : Unit {0})
        → r.on_timeout ≡ timeout_action_pause
        → (env.runtime.pause_sandbox r.runtime_info s.world).0 ≡ ok t
        → expire_sandbox env r.id expected s ≡ (
          ok tt,
          record s {
            ticks = suc s.ticks;
            world = (env.runtime.pause_sandbox r.runtime_info s.world).1;
            store = (update r.id (put_state paused) s.store).1;
            deadlines = synced (put_state paused r) s.deadlines;
          },
        )
    unfolding expire_action expire_by_pause attempt pure ◌>>=◌
    paused_by t pauses h =
        rw due-opened
          (rw (is_pause r.on_timeout pauses, pause_locked-ok env r r clocked t h here) refl)

    -- The callback is due, the stored sandbox, whose id is not empty, is to be paused, and the runtime
    -- pauses it: the callback succeeds, the record is the same but for the state `paused`, the table
    -- has no timer for it, and the other records and timers are as they were.
    pub expire-paused :
        (t : Unit {0})
        → r.on_timeout ≡ timeout_action_pause
        → (env.runtime.pause_sandbox r.runtime_info s.world).0 ≡ ok t
        → (r.id == "") ≡ false
        → ((expire_sandbox env r.id expected s).0 ≡ ok tt)
          × (get r.id (expire_sandbox env r.id expected s).1.store
              ≡ some (record r { state = "paused" }))
          × (timer_of r.id (expire_sandbox env r.id expected s).1.deadlines ≡ none)
          × IsLocal r.id s.store s.deadlines
              (expire_sandbox env r.id expected s).1.store
              (expire_sandbox env r.id expected s).1.deadlines
    expire-paused t pauses h named = rw (paused_by t pauses h) (
      refl,
      rw (get-update r.id r.id (put_state paused) s.store, ==-refl r.id, here) refl,
      rw (named, timer_of-cancel r.id r.id s.deadlines, ==-refl r.id) refl,
      update-IsLocal s.store s.deadlines s.store s.deadlines (put_state paused) (put_state paused r)
          (IsLocal-refl r.id s.store s.deadlines),
    )
