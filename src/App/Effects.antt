-- ===== src/App/Effects.antt =====
-- What the handlers do to the records and the timers, said of any reader of the two tables.
use text.Mathlib.TextEquality.{eq_iff}
use e2b_local.Prelude.{
  String, ◌≡◌, refl, false, none, arith, ◌==◌, string_eq, if◌then◌else◌, ==-refl,
}
use e2b_local.Prelude.Dict.{lookup-insert, lookup-delete}
use e2b_local.Types.{Time, SandboxRecord}
use e2b_local.Store.{SandboxStore, get, update, delete_record}
use e2b_local.Store.Laws.{get-update, get-delete}
use e2b_local.Deadlines.{DeadlineManager, Callback, schedule, cancel, deadline}
use e2b_local.Deadlines.Laws.{timer_of}
use e2b_local.App.Coherence.{synced}

pub timer_of-cancel :
    (k j : String) (m : DeadlineManager)
    → timer_of j (cancel k m) ≡ (if k == j then none else timer_of j m)
unfolding cancel
timer_of-cancel k j m = ground (arith, lookup-delete k j m.timers, eq_iff k j)

pub timer_of-schedule_other :
    (k j : String) (t : Time) (c : Callback) (m : DeadlineManager)
    → (k == j) ≡ false
    → timer_of j (schedule k t c m) ≡ timer_of j m
unfolding schedule
timer_of-schedule_other k j t c m other =
    ground (arith, lookup-insert k j (deadline t c) m.timers, other)

pub timer_of-synced_other :
    (j : String) (r : SandboxRecord) (m : DeadlineManager)
    → (r.id == j) ≡ false
    → timer_of j (synced r m) ≡ timer_of j m
timer_of-synced_other j r m other = ground (
  arith,
  other,
  timer_of-cancel r.id j m,
  timer_of-schedule_other r.id j r.end_at (record { sandbox_id = r.id; expected_end_at = r.end_at })
      m other,
)

-- The tables before and after.
module _ (id : String) (st : SandboxStore) (m : DeadlineManager) (st' : SandboxStore)
    (m' : DeadlineManager) where
  -- Nothing but the record and the timer of one id has changed.
  pub record IsLocal : Type 0 where
    pub records : (j : String) → (id == j) ≡ false → get j st' ≡ get j st
    pub timers : (j : String) → (id == j) ≡ false → timer_of j m' ≡ timer_of j m

  -- The sandbox is gone, and so is its timer.
  pub record IsForgotten : Type 0 where
    pub absent : get id st' ≡ none
    pub untimed : timer_of id m' ≡ none
    pub alone : IsLocal

pub forget-IsForgotten :
    (id : String) (st : SandboxStore) (m : DeadlineManager) (st' : SandboxStore)
    (m' : DeadlineManager)
    → IsLocal id st m st' m'
    → IsForgotten id st m (delete_record id st').1 (cancel id m')
forget-IsForgotten id st m st' m' alone = record {
  absent = rw (get-delete id id st', ==-refl id) refl;
  untimed = rw (timer_of-cancel id id m', ==-refl id) refl;
  alone = record {
    records = λ j e. rw (get-delete id j st', e) (alone.records j e);
    timers = λ j e. rw (timer_of-cancel id j m', e) (alone.timers j e);
  };
}

pub IsLocal-refl : (id : String) (st : SandboxStore) (m : DeadlineManager) → IsLocal id st m st m
IsLocal-refl id st m = record { records = λ j e. refl; timers = λ j e. refl }

-- A setter of the record, and a sync.
pub update-IsLocal :
    (st : SandboxStore) (m : DeadlineManager) (st' : SandboxStore) (m' : DeadlineManager)
    (f : SandboxRecord → SandboxRecord) (q : SandboxRecord)
    → IsLocal q.id st m st' m'
    → IsLocal q.id st m (update q.id f st').1 (synced q m')
update-IsLocal st m st' m' f q alone = record {
  records = λ j e. rw (get-update q.id j f st', e) (alone.records j e);
  timers = λ j e. rw (timer_of-synced_other j q m' e) (alone.timers j e);
}
