-- ===== src/Types/Merge/Laws.antt =====
-- Merging the runtime info of several updates.
use e2b_local.Prelude.{String, ◌≡◌, refl, List, [], ◌∷◌, arith, string_eq}
use e2b_local.Types.{SandboxRuntimeInfo}
use e2b_local.Types.Merge.{or_text, or_list, merge_sandbox_runtime_info}

or_text_assoc : (a b c : String) → or_text c (or_text b a) ≡ or_text (or_text c b) a
or_text_assoc a b c = ground arith

or_text_idem : (a : String) → or_text a a ≡ a
or_text_idem a = ground arith

or_list_assoc {ℓ} :
    {A : Type ℓ} (a b c : List A) → or_list c (or_list b a) ≡ or_list (or_list c b) a
or_list_assoc a b [] = refl
or_list_assoc a b (x ∷ c) = refl

or_list_idem {ℓ} : {A : Type ℓ} (a : List A) → or_list a a ≡ a
or_list_idem [] = refl
or_list_idem (x ∷ a) = refl

-- Merging two updates one after the other is merging the first with the second, and then the result
-- once; and merging an update that is already there changes nothing.
pub merge_runtime_info_assoc :
    (a b c : SandboxRuntimeInfo)
    → (merge_sandbox_runtime_info (merge_sandbox_runtime_info a b) c
        ≡ merge_sandbox_runtime_info a (merge_sandbox_runtime_info b c))
      × (merge_sandbox_runtime_info a a ≡ a)
unfolding merge_sandbox_runtime_info
merge_runtime_info_assoc a b c = (
  λ i. record {
    sandbox_id = or_text_assoc a.sandbox_id b.sandbox_id c.sandbox_id i;
    envd_url = or_text_assoc a.envd_url b.envd_url c.envd_url i;
    container_id = or_text_assoc a.container_id b.container_id c.container_id i;
    container_name = or_text_assoc a.container_name b.container_name c.container_name i;
    container_ip = or_text_assoc a.container_ip b.container_ip c.container_ip i;
    host_port = or_text_assoc a.host_port b.host_port c.host_port i;
    machine_id = or_text_assoc a.machine_id b.machine_id c.machine_id i;
    volume_mounts = or_list_assoc a.volume_mounts b.volume_mounts c.volume_mounts i;
    published_ports = or_list_assoc a.published_ports b.published_ports c.published_ports i;
  },
  λ i. record {
    sandbox_id = or_text_idem a.sandbox_id i;
    envd_url = or_text_idem a.envd_url i;
    container_id = or_text_idem a.container_id i;
    container_name = or_text_idem a.container_name i;
    container_ip = or_text_idem a.container_ip i;
    host_port = or_text_idem a.host_port i;
    machine_id = or_text_idem a.machine_id i;
    volume_mounts = or_list_idem a.volume_mounts i;
    published_ports = or_list_idem a.published_ports i;
  },
)
