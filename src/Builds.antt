-- ===== src/Builds.antt =====
-- internal/gateway/template_build_manager.go: `templateBuildManager`, which bounds the template
-- builds that run at once. A task is a pointer: its address tells two tasks of one key apart.
pub mod Laws
pub mod Bound
use text.Mathlib.TextEquality.{eq_iff}
use e2b_local.Prelude.{
  ℕ, suc, ◌+◌, ◌-◌, String, ◌≡◌, ◌↔◌, refl, Bool, true, false, ◌||◌, ◌&&◌, Option, none, some, List,
  [], ◌∷◌, arith, leb, length, map, nat_beq, if◌then◌else◌, ◌==◌, string_eq, Eq,
}
use e2b_local.Prelude.Dict.{Dict, lookup, insert, delete}
use e2b_local.Prelude.Int.{ℤ, pos, negsuc}

pub data BuildError : Type 0 where
  capacity_exhausted already_running manager_stopped : BuildError

pub record TemplateBuildKey : Type 0 where
  pub template_id : String
  pub build_id : String

abbrev pub key_beq : TemplateBuildKey → TemplateBuildKey → Bool
key_beq a b = (a.template_id == b.template_id) && (a.build_id == b.build_id)

pub key_beq_iff : (a b : TemplateBuildKey) → (key_beq a b ≡ true) ↔ (a ≡ b)
key_beq_iff a b = ground (arith, eq_iff a.template_id b.template_id, eq_iff a.build_id b.build_id)

instance abbrev pub key_eq : Eq TemplateBuildKey
key_eq = record { test = key_beq; decides = key_beq_iff }

-- `done` tells whether the task's context is cancelled.
pub record TemplateBuildTask : Type 0 where
  pub address : ℕ
  pub key : TemplateBuildKey
  pub cancelled : Bool
  pub done : Bool

-- `waiting` is the counter of the wait group.
pub record TemplateBuildManager : Type 0 where
  pub max_concurrent : ℕ
  pub active : Dict TemplateBuildKey TemplateBuildTask
  pub stopping : Bool
  pub waiting : ℕ
  pub next_address : ℕ

abbrev pub default_template_build_max_concurrent : ℕ
default_template_build_max_concurrent = 2

abbrev pub max_of : ℤ → ℕ
max_of (negsuc n) = default_template_build_max_concurrent
max_of (pos n) = if nat_beq n 0 then default_template_build_max_concurrent else n

unfoldable pub new_template_build_manager : ℤ → TemplateBuildManager
new_template_build_manager max_concurrent = record {
  max_concurrent = max_of max_concurrent;
  active = [];
  stopping = false;
  waiting = 0;
  next_address = 0;
}

pub data Reserved : Type 0 where
  refused : BuildError → Reserved
  task : TemplateBuildTask → Reserved

abbrev pub new_task : TemplateBuildKey → TemplateBuildManager → TemplateBuildTask
new_task key m = record { address = m.next_address; key = key; cancelled = false; done = false }

abbrev pub add_task : TemplateBuildKey → TemplateBuildManager → TemplateBuildManager
add_task key m = record m {
  active = insert key (new_task key m) m.active;
  waiting = suc m.waiting;
  next_address = suc m.next_address;
}

abbrev reserve_free :
    TemplateBuildKey
    → Option TemplateBuildTask
    → TemplateBuildManager
    → Reserved × TemplateBuildManager
reserve_free key (some t) m = (refused already_running, m)
reserve_free key none m =
    if leb m.max_concurrent (length m.active)
    then (refused capacity_exhausted, m)
    else (task (new_task key m), add_task key m)

unfoldable pub reserve : TemplateBuildKey → TemplateBuildManager → Reserved × TemplateBuildManager
reserve key m =
    if m.stopping then (refused manager_stopped, m) else reserve_free key (lookup key m.active) m

-- `m.active[task.key] == task`.
abbrev same_task : Option TemplateBuildTask → TemplateBuildTask → Bool
same_task none t = false
same_task (some u) t = nat_beq u.address t.address

unfoldable pub is_current : TemplateBuildTask → TemplateBuildManager → Bool
is_current t m = same_task (lookup t.key m.active) t

-- `complete` and `release` do the same.
unfoldable pub complete : TemplateBuildTask → TemplateBuildManager → TemplateBuildManager
unfolding is_current
complete t m = record m {
  active = if is_current t m then delete t.key m.active else m.active;
  waiting = m.waiting - 1;
}

abbrev cancel_task : TemplateBuildTask → TemplateBuildTask
cancel_task t = if t.cancelled then t else record t { cancelled = true; done = true }

abbrev pub on_tasks :
    (TemplateBuildTask → TemplateBuildTask)
    → Dict TemplateBuildKey TemplateBuildTask
    → Dict TemplateBuildKey TemplateBuildTask
on_tasks f [] = []
on_tasks f ((k, t) ∷ m) = (k, f t) ∷ on_tasks f m

unfoldable pub uncancelled : Dict TemplateBuildKey TemplateBuildTask → ℕ
uncancelled [] = 0
uncancelled ((k, t) ∷ m) = let rest = uncancelled m in if t.cancelled then rest else suc rest

-- The number of tasks that this call cancelled, too.
unfoldable pub cancel_team_builds : TemplateBuildManager → ℕ × TemplateBuildManager
unfolding uncancelled
cancel_team_builds m = (uncancelled m.active, record m { active = on_tasks cancel_task m.active })

-- The first part of `shutdown`, which then waits until `waiting` is 0.
unfoldable pub shutdown : TemplateBuildManager → TemplateBuildManager
shutdown m = record m {
  stopping = true;
  active = on_tasks (λ t. record t { cancelled = true; done = true }) m.active;
}
