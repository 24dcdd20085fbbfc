-- ===== src/Lifecycle/Laws.antt =====
-- The states that the shared actions leave, where the record they are given is stored.
use e2b_local.Prelude.{◌≡◌, some}
use e2b_local.Errors.{Error, ok, err}
use e2b_local.Types.{SandboxRecord, paused}
use e2b_local.Store.{get, update, set_state, put_state}
use e2b_local.Store.Laws.{result-update}
use e2b_local.Runtime.{Surroundings}
use e2b_local.App.{App, pure, ◌>>=◌, in_store, in_runtime}
use e2b_local.App.Coherence.{synced}
use e2b_local.Lifecycle.Coherence.{sync_sandbox_deadline_lem}
use e2b_local.Lifecycle.{pause_sandbox_locked}

module _ {W : Type 0} (env : Surroundings W) (r q : SandboxRecord) (s : App W) where
  abbrev pub pause_world : W
  pause_world = (env.runtime.pause_sandbox r.runtime_info s.world).1

  pub pause_locked-err :
      (e : Error)
      → (env.runtime.pause_sandbox r.runtime_info s.world).0 ≡ err e
      → pause_sandbox_locked env r s ≡ (err e, record s { world = pause_world })
  unfolding pause_sandbox_locked in_runtime ◌>>=◌
  pause_locked-err e h = rw h

  pub pause_locked-ok :
      (t : Unit {0})
      → (env.runtime.pause_sandbox r.runtime_info s.world).0 ≡ ok t
      → get r.id s.store ≡ some q
      → pause_sandbox_locked env r s ≡ (
        ok (some (put_state paused q)),
        record s {
          world = pause_world;
          store = (update r.id (put_state paused) s.store).1;
          deadlines = synced (put_state paused q) s.deadlines;
        },
      )
  unfolding pause_sandbox_locked in_runtime in_store set_state pure ◌>>=◌
  pause_locked-ok t h here =
      rw (h, result-update r.id (put_state paused) s.store, here, sync_sandbox_deadline_lem)
