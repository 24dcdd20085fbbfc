-- ===== src/Expiry/Restore.antt =====
-- internal/gateway/server.go: what `restoreRuntimeSandboxes` keeps.
use e2b_local.Prelude.{String, List, [], ◌∷◌, Option-cases, inl, inr}
use e2b_local.Types.{SandboxRecord}
use e2b_local.Store.{get, update, set_state_runtime_info_and_end_at}
use e2b_local.Store.Laws.{get-update, get-add_entry, update_absent}
use e2b_local.Store.Invariant.{
  KeepsGood, put_runtime-KeepsGood, update-IsGood, add_entry-IsGood, create-Creates,
}
use e2b_local.Runtime.{Surroundings}
use e2b_local.App.{in_store, create_record}
use e2b_local.App.Keeps.{Keeps, Keeps-bind, Keeps-pure, Keeps-on_option, keeps_rules}
use e2b_local.App.Coherence.{all_wait}
use e2b_local.App.Coherence.Owed.{unsynced-AreCoherent}
use e2b_local.Lifecycle.Coherence.{
  CoherentIf, steps, get_record-Coherent, reconcile_record-Coherent,
}
use e2b_local.Requests.Coherence.{IsSound}
use e2b_local.Expiry.{enrich_restored_sandbox_record, restore_one, restore_runtime_sandboxes}

module _ {W : Type 0} (env : Surroundings W) where
  enrich-Coherent :
      (r : SandboxRecord) → Keeps (CoherentIf all_wait) (enrich_restored_sandbox_record env r)
  unfolding enrich_restored_sandbox_record
  enrich-Coherent r = Keeps-bind _ _ (search steps depth 8) λ created. record { at = λ s c. c }

  update-CoherentIf :
      (k : String) (f : SandboxRecord → SandboxRecord)
      → KeepsGood f
      → Keeps {W = W} (CoherentIf all_wait) (in_store (update k f))
  unfolding in_store
  update-CoherentIf k f keeps = record {
    at = λ s c. elim (Option-cases (get k s.store)) [
      | inl e ↦ rw (update_absent k f s.store e) c
      | inr (r, e) ↦
          unsynced-AreCoherent k (f r) s.store _ s.deadlines (λ j. rw (get-update k j f s.store, e))
            (update-IsGood k f s.store keeps c.good) c
    ];
  }

module _ {W : Type 0} (env : Surroundings W) (sound : IsSound env) where
  create-CoherentIf : (r : SandboxRecord) → Keeps (CoherentIf all_wait) (create_record env r)
  unfolding create_record
  create-CoherentIf r = record {
    at = λ s c.
        let made =
          create-Creates (env.random_id s.ticks) (env.clock s.ticks) r s.store (sound.named s.ticks)
            (sound.started s.ticks) in
        elim made [
          | inl (e, h) ↦ rw h c
          | inr (q, h, free, good, _) ↦ rw h (
              unsynced-AreCoherent q.id q s.store _ s.deadlines (λ j. get-add_entry j q s.store)
                (add_entry-IsGood q s.store good c.good) c)
        ];
  }

  restore_one-Coherent : (r : SandboxRecord) → Keeps (CoherentIf all_wait) (restore_one env r)
  unfolding restore_one set_state_runtime_info_and_end_at
  restore_one-Coherent given = Keeps-bind _ _ (enrich-Coherent env given) λ r.
      Keeps-bind _ _ (get_record-Coherent env r.id) λ existing.
        Keeps-bind _ _
          (Keeps-on_option existing _ _ (create-CoherentIf r) λ old _.
            Keeps-bind _ _ (update-CoherentIf env r.id _ (put_runtime-KeepsGood r.state _ r.end_at))
              λ updated. search keeps_rules)
          λ created.
            Keeps-bind _ _ (reconcile_record-Coherent env created) λ found. search keeps_rules

  -- Restoring any list of sandboxes, also where it fails on the way: each stored record is under
  -- its own id, which is not empty, with a deadline and a known timeout action, and each entry in
  -- the table of timers belongs to a stored sandbox, if this was so before.
  pub restore-Coherent :
      (rs : List SandboxRecord) → Keeps (CoherentIf all_wait) (restore_runtime_sandboxes env rs)
  unfolding restore_runtime_sandboxes
  restore-Coherent [] = Keeps-pure _
  restore-Coherent (r ∷ rs) =
      Keeps-bind _ _ (restore_one-Coherent r)
        λ there. Keeps-bind _ _ (restore-Coherent rs) λ n. Keeps-pure _
