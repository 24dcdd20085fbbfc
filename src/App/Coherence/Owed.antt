-- ===== src/App/Coherence/Owed.antt =====
-- What a record may do whose timer is not set yet: it is stored, it is changed, and it gets its first
-- sync (internal/gateway/server.go, gateway_callbacks.go).
use text.Mathlib.TextEquality.{eq_iff}
use e2b_local.Prelude.{
  String, ◌≡◌, refl, true, false, ◌||◌, none, some, ◌==◌, string_eq, if◌then◌else◌, Bool-cases, inl,
  inr, ◌⊎◌,
}
use e2b_local.Types.{SandboxRecord, running}
use e2b_local.Store.{SandboxStore, get, add_entry}
use e2b_local.Store.Laws.{get-add_entry}
use e2b_local.Store.Invariant.{IsGood, IsGoodRecord}
use e2b_local.Deadlines.{DeadlineManager}
use e2b_local.App.Coherence.{
  Debts, no_debts, all_wait, IsWatched, AreCoherent, synced, IsWatched-synced_self,
  IsWatched-synced_other,
}

-- Where the start is not complete yet, the record of one id may change without its timer.
pub unsynced-AreCoherent :
    (k : String) (r : SandboxRecord) (st st' : SandboxStore) (m : DeadlineManager)
    → ((j : String) → get j st' ≡ (if k == j then some r else get j st))
    → IsGood st'
    → AreCoherent all_wait st m
    → AreCoherent all_wait st' m
unsynced-AreCoherent k r st st' m reads good c = record {
  good = good;
  watch = λ j. record {
    watched = λ s. absurd (cc s);
    known = λ l h gone. elim (Bool-cases (k == j)) [
      | inl e ↦ absurd (cc (gone, rw e at (reads j)))
      | inr e ↦ (c.watch j).known l h (cc (gone, rw e at (reads j)))
    ];
    quiet = (c.watch j).quiet;
  };
}

-- A record that was stored earlier gets its first sync, whatever the store has under its id by now.
pub late_sync-AreCoherent :
    (x y : Debts) (r : SandboxRecord) (st : SandboxStore) (m : DeadlineManager)
    → IsGoodRecord r.id r
    → r.state ≡ running
    → ((k : String) → y.waits k ≡ false → ((r.id == k) ≡ true) ⊎ (x.waits k ≡ false))
    → ((k : String) → y.late k ≡ false → x.late k ≡ false)
    → (y.late r.id ≡ false → ¬ (get r.id st ≡ none))
    → AreCoherent x st m
    → AreCoherent y st (synced r m)
late_sync-AreCoherent x y r st m g alive waits late stored c = record {
  good = c.good;
  watch = λ k. elim (Bool-cases (r.id == k)) [
    | inl e ↦
        let same : r.id ≡ k = (eq_iff r.id k).0 e in
        let self : IsWatched no_debts k (some r) (synced r m) =
          IsWatched-synced_self k r m
            (record { keyed = same; named = g.named; ended = g.ended; normal = g.normal })
            (c.watch k).quiet in
        record {
          watched = λ _ _ live. self.watched refl (rw alive refl) live;
          known = λ l _ gone. stored (rw same l) (rw same gone);
          quiet = self.quiet;
        }
    | inr e ↦
        let other = IsWatched-synced_other k (get k st) r m e (c.watch k) in
        record {
          watched = λ w. elim (waits k w) [ inl t ↦ absurd (cc (t, e)) | inr v ↦ other.watched v ];
          known = λ l. other.known (late k l);
          quiet = other.quiet;
        }
  ];
}

-- A new record may be stored before its timer, if it waits for its first sync then.
pub stored-AreCoherent :
    (x : Debts) (q : SandboxRecord) (st : SandboxStore) (m : DeadlineManager)
    → IsGood (add_entry q st)
    → AreCoherent x st m
    → AreCoherent (record x { waits = λ k. q.id == k || x.waits k }) (add_entry q st) m
stored-AreCoherent x q st m good c = record {
  good = good;
  watch = λ k. elim (Bool-cases (q.id == k)) [
    | inl e ↦
        let here : get k (add_entry q st) ≡ some q = rw (get-add_entry k q st, e) in
        record {
          watched = λ w. absurd (cc (rw e at w));
          known = λ l h gone. cc (gone, here);
          quiet = (c.watch k).quiet;
        }
    | inr e ↦
        let same : get k (add_entry q st) ≡ get k st = rw (get-add_entry k q st, e) in
        record {
          watched = λ w run. (c.watch k).watched (rw e at w) (rw same at run);
          known = λ l h gone. (c.watch k).known l h (rw same at gone);
          quiet = (c.watch k).quiet;
        }
  ];
}
