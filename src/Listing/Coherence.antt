-- ===== src/Listing/Coherence.antt =====
-- internal/gateway/gateway_callbacks.go: `defaultListSandboxes` reconciles each record that it lists.
use e2b_local.Runtime.{Surroundings}
use e2b_local.App.Coherence.{Debts}
use e2b_local.App.Keeps.{Keeps}
use e2b_local.Lifecycle.Coherence.{CoherentIf, steps, reconcile_records-Coherent}
use e2b_local.Listing.{SandboxListRequest, default_list_sandboxes}

-- A listing keeps the store and the timers coherent, also where it fails.
pub list-Coherent :
    {W : Type 0} {x : Debts} (env : Surroundings W) (req : SandboxListRequest)
    → Keeps (CoherentIf x) (default_list_sandboxes env req)
unfolding default_list_sandboxes
list-Coherent env req = search (steps, reconcile_records-Coherent)
