-- ===== src/App/Coherence.antt =====
-- The store and the timers agree: every running sandbox is watched by a timer, every timer belongs
-- to a stored sandbox, and a manager that has been stopped has no timer.
pub mod Owed
use text.Mathlib.TextEquality.{eq_iff}
use e2b_local.Prelude.{
  String, ◌≡◌, refl, Bool, true, false, not, ◌||◌, Option, none, some, arith, ◌==◌, string_eq,
  if◌then◌else◌, Bool-cases, inl, inr, ◌⊎◌,
}
use e2b_local.Types.{Time, SandboxRecord, running, is_zero_time}
use e2b_local.Store.{SandboxStore, get, update, delete_record, add_entry}
use e2b_local.Store.Laws.{get-update, get-delete, get-add_entry}
use e2b_local.Store.Invariant.{
  IsGood, IsGoodRecord, KeepsGood, update-IsGood, delete-IsGood, add_entry-IsGood,
}
use e2b_local.Deadlines.{DeadlineManager, Callback, schedule, cancel, begin_shutdown}
use e2b_local.Deadlines.Laws.{
  has_timer, has_timer-shutdown, stopped-shutdown, has_timer-schedule, has_timer-cancel,
  stopped-schedule, stopped-cancel,
}

abbrev pub runs : Option SandboxRecord → Bool
runs none = false
runs (some r) = r.state == running

-- What is not owed yet: the sandboxes in `waits` still get their first sync, and the timers of those
-- in `late` may outlive them.
pub record Debts : Type 0 where
  pub waits : String → Bool
  pub late : String → Bool

abbrev pub no_debts : Debts
no_debts = record { waits = λ k. false; late = λ k. false }

-- A start that is not complete yet: no sandbox has got its timer.
abbrev pub all_wait : Debts
all_wait = record { waits = λ k. true; late = λ k. false }

-- What the timers owe to the record of one id, `o`.
pub record IsWatched (x : Debts) (k : String) (o : Option SandboxRecord) (m : DeadlineManager)
    : Type 0 where
  pub watched : x.waits k ≡ false → runs o ≡ true → m.stopped ≡ false → has_timer k m ≡ true
  pub known : x.late k ≡ false → has_timer k m ≡ true → ¬ (o ≡ none)
  pub quiet : m.stopped ≡ true → has_timer k m ≡ false

pub record AreCoherent (x : Debts) (st : SandboxStore) (m : DeadlineManager) : Type 0 where
  pub good : IsGood st
  pub watch : (k : String) → IsWatched x k (get k st) m

-- The manager that `syncSandboxDeadline` leaves.
abbrev pub synced : SandboxRecord → DeadlineManager → DeadlineManager
synced r m =
    if r.id == ""
    then m
    else if not (r.state == running) || is_zero_time r.end_at
    then cancel r.id m
    else schedule r.id r.end_at (record { sandbox_id = r.id; expected_end_at = r.end_at }) m

stopped-synced : (r : SandboxRecord) (m : DeadlineManager) → (synced r m).stopped ≡ m.stopped
stopped-synced r m = ground (
  arith,
  stopped-cancel r.id m,
  stopped-schedule r.id r.end_at (record { sandbox_id = r.id; expected_end_at = r.end_at }) m,
)

has_timer-synced_other :
    (k : String) (r : SandboxRecord) (m : DeadlineManager)
    → (r.id == k) ≡ false
    → has_timer k (synced r m) ≡ has_timer k m
has_timer-synced_other k r m other = ground (
  arith,
  has_timer-cancel r.id k m,
  has_timer-schedule r.id k r.end_at (record { sandbox_id = r.id; expected_end_at = r.end_at }) m,
)

module _ {x : Debts} where
  -- A sync watches the record that it is given, and leaves the other ids alone.
  IsWatched-synced_self :
      (k : String) (r : SandboxRecord) (m : DeadlineManager)
      → IsGoodRecord k r
      → (m.stopped ≡ true → has_timer k m ≡ false)
      → IsWatched x k (some r) (synced r m)
  IsWatched-synced_self k r m g quiet = record {
    watched = λ s run live.
        ground (arith, facts, stopped-synced r m, g.keyed, g.named, g.ended, eq_iff r.id k);
    known = λ _ _ h. cc;
    quiet = λ h. ground (
      arith,
      facts,
      stopped-synced r m,
      g.keyed,
      g.named,
      g.ended,
      eq_iff r.id k,
      has_timer-cancel r.id k m,
    );
  }
    where
      facts :
          has_timer k
            (schedule r.id r.end_at (record { sandbox_id = r.id; expected_end_at = r.end_at }) m)
          ≡ (if m.stopped then has_timer k m else if r.id == k then true else has_timer k m)
      facts =
          has_timer-schedule r.id k r.end_at
            (record { sandbox_id = r.id; expected_end_at = r.end_at }) m

  IsWatched-synced_other :
      (k : String) (o : Option SandboxRecord) (r : SandboxRecord) (m : DeadlineManager)
      → (r.id == k) ≡ false
      → IsWatched x k o m
      → IsWatched x k o (synced r m)
  IsWatched-synced_other k o r m other w =
      let same = has_timer-synced_other k r m other in
      let stop = stopped-synced r m in
      record {
        watched = λ s run live. rw same (w.watched s run (rw stop at live));
        known = λ l h. w.known l (rw same at h);
        quiet = λ h. rw same (w.quiet (rw stop at h));
      }

  -- What another id owes is the same where its record is the same.
  IsWatched-of :
      (k : String) (o p : Option SandboxRecord) (m : DeadlineManager)
      → p ≡ o
      → IsWatched x k o m
      → IsWatched x k p m
  IsWatched-of k o p m e w = rw e w

  -- The store changes the record of one id to `r`, and the timer follows.
  module _ (k : String) (st st' : SandboxStore) (m : DeadlineManager) (r : SandboxRecord) where
    pub sync-IsCoherent :
        r.id ≡ k
        → ((j : String) → get j st' ≡ (if k == j then some r else get j st))
        → IsGood st'
        → AreCoherent x st m
        → AreCoherent x st' (synced r m)
    sync-IsCoherent keyed reads good c = record {
      good = good;
      watch = λ j. elim (Bool-cases (k == j)) [
        | inl e ↦
            let here : get j st' ≡ some r = rw e at (reads j) in
            IsWatched-of j (some r) (get j st') (synced r m) here
              (IsWatched-synced_self j r m (good.at j r here) (c.watch j).quiet)
        | inr e ↦
            let there : get j st' ≡ get j st = rw e at (reads j) in
            IsWatched-of j (get j st) (get j st') (synced r m) there
              (IsWatched-synced_other j (get j st) r m (rw keyed e) (c.watch j))
      ];
    }

  -- A sync with a record that is stored.
  pub sync_stored-IsCoherent :
      (k : String) (r : SandboxRecord) (st : SandboxStore) (m : DeadlineManager)
      → get k st ≡ some r
      → AreCoherent x st m
      → AreCoherent x st (synced r m)
  sync_stored-IsCoherent k r st m here c =
      sync-IsCoherent k st st m r (c.good.at k r here).keyed
        (λ j. elim (Bool-cases (k == j)) [ inl e ↦ rw (e, ← (eq_iff k j).0 e) here | inr e ↦ rw e ])
        c.good c

  pub update-IsCoherent :
      (k : String) (f : SandboxRecord → SandboxRecord) (r : SandboxRecord) (st : SandboxStore)
      (m : DeadlineManager)
      → KeepsGood f
      → get k st ≡ some r
      → AreCoherent x st m
      → AreCoherent x (update k f st).1 (synced (f r) m)
  update-IsCoherent k f r st m keeps here c =
      sync-IsCoherent k st (update k f st).1 m (f r) (keeps k r (c.good.at k r here)).keyed
        (λ j. rw (get-update k j f st, here) refl) (update-IsGood k f st keeps c.good) c

  pub add_entry-IsCoherent :
      (r : SandboxRecord) (st : SandboxStore) (m : DeadlineManager)
      → IsGoodRecord r.id r
      → AreCoherent x st m
      → AreCoherent x (add_entry r st) (synced r m)
  add_entry-IsCoherent r st m g c =
      sync-IsCoherent r.id st (add_entry r st) m r refl (λ j. get-add_entry j r st)
        (add_entry-IsGood r st g c.good) c

  IsWatched-cancel_self :
      (k : String) (m : DeadlineManager)
      → (m.stopped ≡ true → has_timer k m ≡ false)
      → IsWatched x k none (cancel k m)
  IsWatched-cancel_self k m quiet =
      let gone : has_timer k (cancel k m) ≡ false =
        ground (arith, has_timer-cancel k k m, eq_iff k k) in
      record { watched = λ _ run _. absurd (cc); known = λ l h. absurd (cc); quiet = λ _. gone }

  IsWatched-cancel_other :
      (k j : String) (o : Option SandboxRecord) (m : DeadlineManager)
      → (k == j) ≡ false
      → IsWatched x j o m
      → IsWatched x j o (cancel k m)
  IsWatched-cancel_other k j o m other w =
      let same : has_timer j (cancel k m) ≡ has_timer j m = rw (has_timer-cancel k j m, other) in
      let stop = stopped-cancel k m in
      record {
        watched = λ s run live. rw same (w.watched s run (rw stop at live));
        known = λ l h. w.known l (rw same at h);
        quiet = λ h. rw same (w.quiet (rw stop at h));
      }

  -- The timer of an id without a record is cancelled.
  module _ (k : String) (st st' : SandboxStore) (m : DeadlineManager) where
    pub cancel-IsCoherent :
        ((j : String) → get j st' ≡ (if k == j then none else get j st))
        → IsGood st'
        → AreCoherent x st m
        → AreCoherent x st' (cancel k m)
    cancel-IsCoherent reads good c = record {
      good = good;
      watch = λ j. elim (Bool-cases (k == j)) [
        | inl e ↦
            IsWatched-of j none (get j st') (cancel k m) (rw e at (reads j))
              (rw (← (eq_iff k j).0 e) (IsWatched-cancel_self k m (c.watch k).quiet))
        | inr e ↦
            IsWatched-of j (get j st) (get j st') (cancel k m) (rw e at (reads j))
              (IsWatched-cancel_other k j (get j st) m e (c.watch j))
      ];
    }

  pub delete-IsCoherent :
      (k : String) (st : SandboxStore) (m : DeadlineManager)
      → AreCoherent x st m
      → AreCoherent x (delete_record k st).1 (cancel k m)
  delete-IsCoherent k st m c =
      cancel-IsCoherent k st (delete_record k st).1 m (λ j. get-delete k j st)
        (delete-IsGood k st c.good) c

  pub cancel_absent-IsCoherent :
      (k : String) (st : SandboxStore) (m : DeadlineManager)
      → get k st ≡ none
      → AreCoherent x st m
      → AreCoherent x st (cancel k m)
  cancel_absent-IsCoherent k st m absent c =
      cancel-IsCoherent k st st m
        (λ j. elim (Bool-cases (k == j)) [
          | inl e ↦ rw (e, ← (eq_iff k j).0 e) absent
          | inr e ↦ rw e
        ])
        c.good c

  -- A timer may always be set for an id that has a record.
  pub schedule_stored-IsCoherent :
      (k : String) (t : Time) (cb : Callback) (r : SandboxRecord) (st : SandboxStore)
      (m : DeadlineManager)
      → get k st ≡ some r
      → AreCoherent x st m
      → AreCoherent x st (schedule k t cb m)
  schedule_stored-IsCoherent k t cb r st m here c = record {
    good = c.good;
    watch = λ j.
        let w = c.watch j in
        let timer = has_timer-schedule k j t cb m in
        let stop = stopped-schedule k t cb m in
        record {
          watched = λ s run live. ground (arith, timer, stop, w.watched s run (rw stop at live));
          known = λ l h. elim (Bool-cases (k == j)) [
            | inl e ↦ rw (← (eq_iff k j).0 e, here) (λ p. cc)
            | inr e ↦ w.known l (ground (arith, timer))
          ];
          quiet = λ h. ground (arith, timer, w.quiet (rw stop at h));
        };
  }

  -- Coherence depends on the manager by its timers' ids and its flag alone.
  pub same_timers-IsCoherent :
      (st : SandboxStore) (m n : DeadlineManager)
      → ((k : String) → has_timer k n ≡ has_timer k m)
      → n.stopped ≡ m.stopped
      → AreCoherent x st m
      → AreCoherent x st n
  same_timers-IsCoherent st m n timers stop c = record {
    good = c.good;
    watch = λ k. record {
      watched = λ s run live. rw (timers k) ((c.watch k).watched s run (rw stop at live));
      known = λ l h. (c.watch k).known l (rw (timers k) at h);
      quiet = λ h. rw (timers k) ((c.watch k).quiet (rw stop at h));
    };
  }

  pub shutdown-IsCoherent :
      (st : SandboxStore) (m : DeadlineManager)
      → AreCoherent x st m
      → AreCoherent x st (begin_shutdown m)
  shutdown-IsCoherent st m c = elim (Bool-cases m.stopped) [
    | inl e ↦
        same_timers-IsCoherent st m (begin_shutdown m)
          (λ k. unfold begin_shutdown in ground (arith, e))
          (unfold begin_shutdown in ground (arith, e)) c
    | inr e ↦
        let empty = λ (k : String). has_timer-shutdown k m e in
        record {
          good = c.good;
          watch = λ k. record {
            watched = λ _ _ live. absurd (cc (live, stopped-shutdown m));
            known = λ l h. absurd (cc (h, empty k));
            quiet = λ _. empty k;
          };
        }
  ]
