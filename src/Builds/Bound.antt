-- ===== src/Builds/Bound.antt =====
-- How many builds are active, over any history of the manager.
use mathlib.Core.Path.{subst}
use e2b_local.Builds.Laws.{IsFree, reserve-IsFree}
use e2b_local.Prelude.{
  ◌+◌, ◌≤◌, ◌<◌, ◌≡◌, refl, sym, Bool, true, Option, none, some, [], ◌∷◌, arith, leb, length,
  Option-cases, Bool-cases, inl, inr,
}
use e2b_local.Prelude.Int.{ℤ}
use e2b_local.Prelude.Dict.{
  Dict, lookup, delete, length-insert_new, length-delete, IsMap, IsMap-insert, IsMap-delete,
}
use e2b_local.Builds.{
  TemplateBuildKey, TemplateBuildTask, TemplateBuildManager, key_eq, new_template_build_manager,
  reserve, complete, is_current, cancel_team_builds, shutdown, on_tasks, add_task, new_task, max_of,
}

-- What can happen to a manager. A task is completed or released once, so while it is still current.
pub data Step : TemplateBuildManager → TemplateBuildManager → Type 0 where
  reserves : (key : TemplateBuildKey) (m : TemplateBuildManager) → Step m (reserve key m).1
  completes :
      (t : TemplateBuildTask) (m : TemplateBuildManager)
      → is_current t m ≡ true
      → Step m (complete t m)
  cancels : (m : TemplateBuildManager) → Step m (cancel_team_builds m).1
  stops : (m : TemplateBuildManager) → Step m (shutdown m)

pub data Reaches (max : ℤ) : TemplateBuildManager → Type 0 where
  starts : Reaches max (new_template_build_manager max)
  goes : {m n : TemplateBuildManager} → Reaches max m → Step m n → Reaches max n

-- The wait group counts the active builds, which are no more than allowed.
pub record IsBounded (max : ℤ) (m : TemplateBuildManager) : Type 0 where
  pub limit : m.max_concurrent ≡ max_of max
  pub bound : length m.active ≤ m.max_concurrent
  pub waits : m.waiting ≡ length m.active
  pub unique : IsMap m.active

length-on_tasks :
    (f : TemplateBuildTask → TemplateBuildTask) (m : Dict TemplateBuildKey TemplateBuildTask)
    → length (on_tasks f m) ≡ length m
length-on_tasks f [] = refl
length-on_tasks f ((k, t) ∷ m) = omega (arith, length-on_tasks f m)

lookup-on_tasks-none :
    (f : TemplateBuildTask → TemplateBuildTask) (k : TemplateBuildKey)
    (m : Dict TemplateBuildKey TemplateBuildTask)
    → lookup k m ≡ none
    → lookup k (on_tasks f m) ≡ none
unfolding lookup
lookup-on_tasks-none f k [] h = refl
lookup-on_tasks-none f k ((j, t) ∷ m) h = ground (arith, lookup-on_tasks-none f k m)

IsMap-on_tasks :
    (f : TemplateBuildTask → TemplateBuildTask) (m : Dict TemplateBuildKey TemplateBuildTask)
    → IsMap m
    → IsMap (on_tasks f m)
IsMap-on_tasks f [] h = tt
IsMap-on_tasks f ((k, t) ∷ m) (h, hm) = (lookup-on_tasks-none f k m h, IsMap-on_tasks f m hm)

on_tasks-IsBounded :
    (max : ℤ) (f : TemplateBuildTask → TemplateBuildTask) (b : Bool) (m : TemplateBuildManager)
    → IsBounded max m
    → IsBounded max (record m { stopping = b; active = on_tasks f m.active })
on_tasks-IsBounded max f b m h = record {
  limit = h.limit;
  bound = omega (arith, length-on_tasks f m.active, h.bound);
  waits = omega (arith, length-on_tasks f m.active, h.waits);
  unique = IsMap-on_tasks f m.active h.unique;
}

add_task-IsBounded :
    (max : ℤ) (key : TemplateBuildKey) (m : TemplateBuildManager)
    → lookup key m.active ≡ none
    → length m.active < m.max_concurrent
    → IsBounded max m
    → IsBounded max (add_task key m)
add_task-IsBounded max key m fresh room h =
    let longer = length-insert_new key (new_task key m) m.active fresh in
    record {
      limit = h.limit;
      bound = omega (arith, longer, room);
      waits = omega (arith, longer, h.waits);
      unique = IsMap-insert key (new_task key m) m.active h.unique;
    }

reserve-IsBounded :
    (max : ℤ) (key : TemplateBuildKey) (m : TemplateBuildManager)
    → IsBounded max m
    → IsBounded max (reserve key m).1
unfolding reserve
reserve-IsBounded max key m h = elim (Bool-cases m.stopping) [
  | inl stop ↦ simp stop h
  | inr live ↦ elim (Option-cases (lookup key m.active)) [
    | inr (t, there) ↦ simp (live, there) h
    | inl fresh ↦ elim (Bool-cases (leb m.max_concurrent (length m.active))) [
      | inl full ↦ simp (live, fresh, full) h
      | inr less ↦
          let room : length m.active < m.max_concurrent = ground (arith, less) in
          let free : IsFree key m = record {
            open_for_builds = live;
            unreserved = fresh;
            room = room;
          } in
          subst (λ p. IsBounded max p.1) (sym (reserve-IsFree key m free))
            (add_task-IsBounded max key m fresh room h)
    ]
  ]
]

complete-IsBounded :
    (max : ℤ) (t : TemplateBuildTask) (m : TemplateBuildManager)
    → is_current t m ≡ true
    → IsBounded max m
    → IsBounded max (complete t m)
unfolding complete
complete-IsBounded max t m now h = rw now (record {
  limit = h.limit;
  bound = omega (arith, shorter, h.bound);
  waits = omega (arith, shorter, h.waits);
  unique = IsMap-delete t.key m.active h.unique;
})
  where
    by_entry :
        (o : Option TemplateBuildTask)
        → lookup t.key m.active ≡ o
        → length (delete t.key m.active) + 1 ≡ length m.active
    by_entry none e = absurd (cc (rw (is_current, e) at now))
    by_entry (some u) e = length-delete t.key u m.active h.unique e

    shorter : length (delete t.key m.active) + 1 ≡ length m.active
    shorter = by_entry (lookup t.key m.active) refl

Step-IsBounded :
    (max : ℤ) {m n : TemplateBuildManager} → Step m n → IsBounded max m → IsBounded max n
Step-IsBounded max (reserves key m) h = reserve-IsBounded max key m h
Step-IsBounded max (completes t m now) h = complete-IsBounded max t m now h
Step-IsBounded max (cancels m) h =
    unfold cancel_team_builds in on_tasks-IsBounded max _ m.stopping m h
Step-IsBounded max (stops m) h = unfold shutdown in on_tasks-IsBounded max _ true m h

-- At any time after the start, the number of active builds is at most the configured number, or 2 if
-- that is not positive, and the wait group counts exactly the active builds.
pub Reaches-IsBounded : (max : ℤ) (m : TemplateBuildManager) → Reaches max m → IsBounded max m
unfolding new_template_build_manager
Reaches-IsBounded max m starts = record {
  limit = refl;
  bound = omega arith;
  waits = refl;
  unique = tt;
}
Reaches-IsBounded max n (goes {m} r step) = Step-IsBounded max step (Reaches-IsBounded max m r)
