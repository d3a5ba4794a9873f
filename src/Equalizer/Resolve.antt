-- ===== src/Equalizer/Resolve.antt =====
-- equalizer/crd.rs and equalizer/reconcile.rs: the targets of a fleet, and what resolving one of
-- them gives. The home cluster, the construction of a client and the target's API server are an
-- interface, whose errors are their texts.
use emergency_ration_webhook.Common.{String, Option, none, some}
use emergency_ration_webhook.Common.Int.{ℤ}
use emergency_ration_webhook.Common.Result.{Result, ok, err, ◌>>=◌, and_then, or_err}
use emergency_ration_webhook.K8s.{Dict, get}
use emergency_ration_webhook.Crd.Allocation.{AllocationStatus, Allocation}
use emergency_ration_webhook.Crd.ClusterCapacity.{ClusterCapacity, ClusterCapacityStatus}
use emergency_ration_webhook.Webhook.Failure.{◌<>◌}

pub data ClusterState : Type 0 where
  healthy over unreachable config_error : ClusterState

pub record SecretRef : Type 0 where
  pub name : String
  pub key : String
  pub namespace : String

pub record TargetCluster : Type 0 where
  pub name : String
  pub kubeconfig_secret_ref : SecretRef

-- `C` is the type of the clients.
pub data ResolvedTarget (C F : Type 0) : Type 0 where
  read :
      (name : String) (client : C) (cpu_util mem_util : F) (cpu_alloc mem_alloc : ℤ)
      → ResolvedTarget C F
  failed : (name : String) (state : ClusterState) (error : String) → ResolvedTarget C F

pub record World (C F : Type 0) : Type 0 where
  -- the Secret of a namespace and a name, by its data
  pub secret : String → String → Result String (Option (Dict String))
  -- `build_target_client`
  pub client : String → Result String C
  pub allocation : C → Result String (Allocation F)
  pub capacity : C → Result String ClusterCapacity
  -- the merge patch of the two override fields of the target's Allocation
  pub patch : C → ℤ → ℤ → Result String Unit

-- `map_err(|e| format!("…: {e}"))`.
abbrev prefixed : {A : Type 0} → String → Result String A → Result String A
prefixed text (ok a) = ok a
prefixed text (err e) = err (text <> ": " <> e)

abbrev totals_of : ClusterCapacityStatus → ℤ × ℤ
totals_of status = (status.total_allocatable_cpu_milli, status.total_allocatable_memory_bytes)

unfoldable pub read_cluster_capacity : Result String ClusterCapacity → Result String (ℤ × ℤ)
read_cluster_capacity reply = do
  cc ← prefixed "reading ClusterCapacity status" reply
  status ← or_err cc.status "ClusterCapacity has no status"
  ok (totals_of status)

module _ {F : Type 0} where
  abbrev utilization_of : AllocationStatus F → F × F
  utilization_of status = (status.utilization_percent_cpu, status.utilization_percent_memory)

  unfoldable pub read_allocation_utilization : Result String (Allocation F) → Result String (F × F)
  read_allocation_utilization reply = do
    alloc ← prefixed "reading Allocation status" reply
    status ← or_err alloc.status "Allocation has no status"
    ok (utilization_of status)

  -- The match on the capacity, and so on outwards.
  abbrev pub on_capacity :
      {C : Type 0} → String → C → F × F → Result String (ℤ × ℤ) → ResolvedTarget C F
  on_capacity name client utils (ok totals) = read name client utils.0 utils.1 totals.0 totals.1
  on_capacity name client utils (err e) = failed name unreachable e

  module _ {C : Type 0} (world : World C F) where
    abbrev pub on_allocation : String → C → Result String (F × F) → ResolvedTarget C F
    on_allocation name client (ok utils) =
        on_capacity name client utils (read_cluster_capacity (world.capacity client))
    on_allocation name client (err e) = failed name unreachable e

    abbrev pub on_client : String → Result String C → ResolvedTarget C F
    on_client name (ok client) =
        on_allocation name client (read_allocation_utilization (world.allocation client))
    on_client name (err e) =
        failed name config_error ("building target client from kubeconfig: " <> e)

    abbrev pub on_kubeconfig : TargetCluster → Option String → ResolvedTarget C F
    on_kubeconfig target (some bytes) = on_client target.name (world.client bytes)
    on_kubeconfig target none =
        let r = target.kubeconfig_secret_ref in
        failed target.name config_error
          ("key `" <> r.key <> "` not found in Secret `" <> r.namespace <> "/" <> r.name <> "`")

    abbrev pub on_secret : TargetCluster → Result String (Option (Dict String)) → ResolvedTarget C F
    on_secret target (ok data_map) =
        on_kubeconfig target (and_then data_map (get (target.kubeconfig_secret_ref).key))
    on_secret target (err e) =
        let r = target.kubeconfig_secret_ref in
        failed target.name config_error
          ("reading kubeconfig Secret `" <> r.namespace <> "/" <> r.name <> "`: " <> e)

    unfoldable pub resolve_target : TargetCluster → ResolvedTarget C F
    resolve_target target =
        let r = target.kubeconfig_secret_ref in on_secret target (world.secret r.namespace r.name)
