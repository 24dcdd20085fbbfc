-- ===== src/Builds/Laws.antt =====
-- Tasks and reservations: who holds a key, and what each error of `reserve` means.
use e2b_local.Prelude.{
  ◌<◌, ◌≡◌, refl, Bool, true, false, none, arith, leb, length, if◌then◌else◌, ◌==◌, Option-cases,
  Bool-cases, inl, inr, ◌↔◌,
}
use e2b_local.Prelude.Dict.{lookup, lookup-insert, lookup-delete}
use e2b_local.Builds.{
  TemplateBuildKey, TemplateBuildTask, TemplateBuildManager, key_eq, key_beq_iff, task, reserve,
  new_task, add_task, complete, is_current,
}

-- What a reservation needs.
pub record IsFree (key : TemplateBuildKey) (m : TemplateBuildManager) : Type 0 where
  pub open_for_builds : m.stopping ≡ false
  pub unreserved : lookup key m.active ≡ none
  pub room : length m.active < m.max_concurrent

pub reserve-IsFree :
    (key : TemplateBuildKey) (m : TemplateBuildManager)
    → IsFree key m
    → reserve key m ≡ (task (new_task key m), add_task key m)
unfolding reserve
reserve-IsFree key m free =
    let room : leb m.max_concurrent (length m.active) ≡ false = ground (arith, free.room) in
    rw (free.open_for_builds, free.unreserved, room)

-- A reservation succeeds exactly where the manager is not stopped, has no build of that key, and has
-- fewer builds than are allowed.
pub reserve_iff :
    (key : TemplateBuildKey) (m : TemplateBuildManager)
    → ((reserve key m).0 ≡ task (new_task key m)) ↔ IsFree key m
unfolding reserve
reserve_iff key m = (to m.stopping refl, λ free. rw (reserve-IsFree key m free))
  where
    to : (b : Bool) → m.stopping ≡ b → (reserve key m).0 ≡ task (new_task key m) → IsFree key m
    to true stop h = absurd (cc (rw stop at h))
    to false stop h = elim (Option-cases (lookup key m.active)) [
      | inr (t, there) ↦ absurd (cc (rw (stop, there) at h))
      | inl fresh ↦ elim (Bool-cases (leb m.max_concurrent (length m.active))) [
        | inl full ↦ absurd (cc (rw (stop, fresh, full) at h))
        | inr less ↦ record {
          open_for_builds = stop;
          unreserved = fresh;
          room = ground (arith, less);
        }
      ]
    ]

-- Where a key can be reserved, after the reservation the new task is the current one of its key.
pub is_current-reserve :
    (key : TemplateBuildKey) (m : TemplateBuildManager)
    → IsFree key m
    → is_current (new_task key m) (reserve key m).1 ≡ true
unfolding is_current
is_current-reserve key m free =
    rw (reserve-IsFree key m free)
      (ground (arith, lookup-insert key key (new_task key m) m.active, key_beq_iff key key))

-- When the current task of a key completes, the key is free, and the other keys keep their tasks.
pub lookup-complete :
    (t : TemplateBuildTask) (k : TemplateBuildKey) (m : TemplateBuildManager)
    → is_current t m ≡ true
    → lookup k (complete t m).active ≡ (if t.key == k then none else lookup k m.active)
unfolding complete
lookup-complete t k m h = rw h (lookup-delete t.key k m.active)
