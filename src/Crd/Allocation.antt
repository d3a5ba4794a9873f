-- ===== src/Crd/Allocation.antt =====
-- crd/allocation.rs: the demand side, the enforcement mode and the exemptions.
pub mod Exemption
use emergency_ration_webhook.Common.{
  String, Option, none, some, List, Bool, ◌&&◌, not, any, ◌==ˢ◌, if◌then◌else◌,
}
use emergency_ration_webhook.Common.Int.{ℤ}
use emergency_ration_webhook.Common.Result.{unwrap_or, is_some_and}

abbrev pub cluster_allocation_name : String
cluster_allocation_name = "cluster-allocation"

pub data EnforcementMode : Type 0 where
  enforce dry_run : EnforcementMode

abbrev pub as_log_str : EnforcementMode → String
as_log_str enforce = "enforce"
as_log_str dry_run = "dry_run"

unfoldable pub resolve_enforcement_mode : Option EnforcementMode → EnforcementMode
resolve_enforcement_mode mode = unwrap_or mode enforce

pub record AllocationSpec : Type 0 where
  pub budget_percent : ℤ
  pub enforcement_mode : Option EnforcementMode
  pub excluded_namespaces : Option (List String)
  pub excluded_priority_classes : Option (List String)
  pub cpu_budget_percent : Option ℤ
  pub memory_budget_percent : Option ℤ

unfoldable pub resolve_effective_budgets : AllocationSpec → ℤ × ℤ
resolve_effective_budgets spec = (
  unwrap_or spec.cpu_budget_percent spec.budget_percent,
  unwrap_or spec.memory_budget_percent spec.budget_percent,
)

pub data ExemptionReason : Type 0 where
  namespace priority_class webhook_namespace : ExemptionReason

-- `ExemptionReason::as_str`.
abbrev pub reason_str : ExemptionReason → String
reason_str namespace = "namespace"
reason_str priority_class = "priority_class"
reason_str webhook_namespace = "webhook_namespace"

unfoldable pub list_contains : Option (List String) → String → Bool
list_contains list value = is_some_and list (any (λ entry. entry ==ˢ value))

unfoldable pub check_exemption :
    Option String → Option String → AllocationSpec → String → Option ExemptionReason
unfolding list_contains
check_exemption pod_namespace pod_priority_class spec own =
    if is_some_and pod_namespace (λ ns. ns ==ˢ own)
    then some webhook_namespace
    else if is_some_and pod_namespace (list_contains spec.excluded_namespaces)
    then some namespace
    else if is_some_and pod_priority_class
        (λ pc. not (pc ==ˢ "") && list_contains spec.excluded_priority_classes pc)
    then some priority_class
    else none

-- The floats of the status have type `F`.
pub record AllocationStatus (F : Type 0) : Type 0 where
  pub allocated_cpu_milli : ℤ
  pub allocated_memory_bytes : ℤ
  pub ceiling_cpu_milli : ℤ
  pub ceiling_memory_bytes : ℤ
  pub utilization_percent_cpu : F
  pub utilization_percent_memory : F
  pub last_updated : String
  pub effective_cpu_budget_percent : ℤ
  pub effective_memory_budget_percent : ℤ

pub record Allocation (F : Type 0) : Type 0 where
  pub name : String
  pub spec : AllocationSpec
  pub status : Option (AllocationStatus F)
