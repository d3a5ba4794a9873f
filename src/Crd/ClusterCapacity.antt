-- ===== src/Crd/ClusterCapacity.antt =====
-- crd/cluster_capacity.rs: the supply side.
use emergency_ration_webhook.Common.{String, Option, List}
use emergency_ration_webhook.Common.Int.{ℤ}
use emergency_ration_webhook.K8s.{LabelSelector}

abbrev pub cluster_capacity_name : String
cluster_capacity_name = "cluster-capacity"

pub record ClusterCapacitySpec : Type 0 where
  pub node_selectors : Option (List LabelSelector)

pub record ClusterCapacityStatus : Type 0 where
  pub total_allocatable_cpu_milli : ℤ
  pub total_allocatable_memory_bytes : ℤ
  pub node_count : ℤ
  pub last_updated : String
  pub excluded_node_count : ℤ
  pub excluded_by_unschedulable : ℤ
  pub excluded_by_selector : ℤ

pub record ClusterCapacity : Type 0 where
  pub name : String
  pub spec : ClusterCapacitySpec
  pub status : Option ClusterCapacityStatus
