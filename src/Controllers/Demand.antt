-- ===== src/Controllers/Demand.antt =====
-- controllers/allocation.rs: the demand side.
pub mod Recompute
pub mod Total
pub mod Run
use emergency_ration_webhook.Common.{
  String, Option, none, some, List, [], ◌∷◌, Bool, ◌||◌, not, ◌==ˢ◌, ◌==◌, if◌then◌else◌,
}
use emergency_ration_webhook.Common.Int.{ℤ, pos, ◌+ℤ◌, ◌==ℤ◌}
use emergency_ration_webhook.Common.Word.{wrap64}
use emergency_ration_webhook.Common.Result.{Result, ok, err, is_some_and}
use emergency_ration_webhook.Common.Float.{Float}
use emergency_ration_webhook.K8s.{Pod, PodSpec, Store}
use emergency_ration_webhook.Crd.Allocation.{
  enforce, AllocationStatus, AllocationSpec, Allocation, cluster_allocation_name,
  resolve_effective_budgets,
}
use emergency_ration_webhook.Crd.ClusterCapacity.{ClusterCapacity}
use emergency_ration_webhook.Resources.Quantity.{QuantityParseError}
use emergency_ration_webhook.Resources.PodRequests.{extract_pod_requests}
use emergency_ration_webhook.Webhook.Admission.{Figures, ceiling_per_resource}
use emergency_ration_webhook.Webhook.Evaluate.{cached_supply}
use emergency_ration_webhook.Webhook.Observe.{ratio, totals_of}
use emergency_ration_webhook.Controllers.Singleton.{KubeError, Api, is_not_found, ensure_singleton}

unfoldable pub is_non_terminal : Option String → Bool
is_non_terminal phase = not (is_some_and phase (λ p. p ==ˢ "Failed" || p ==ˢ "Succeeded"))

-- `DEFAULT_BUDGET_PERCENT` and the default singleton.
abbrev pub default_budget_percent : ℤ
default_budget_percent = pos 80

abbrev pub default_allocation_singleton : {F : Type 0} → Allocation F
default_allocation_singleton = record {
  name = cluster_allocation_name;
  spec = record {
    budget_percent = default_budget_percent;
    enforcement_mode = some enforce;
    excluded_namespaces = none;
    excluded_priority_classes = none;
    cpu_budget_percent = none;
    memory_budget_percent = none;
  };
  status = none;
}

abbrev pub add_request : Figures → Result QuantityParseError Figures → Figures
add_request acc (ok request) = (wrap64 (acc.0 +ℤ request.0), wrap64 (acc.1 +ℤ request.1))
add_request acc (err e) = acc

module _ (fl : Float) where
  abbrev pub add_spec : Figures → Option PodSpec → Figures
  add_spec acc none = acc
  add_spec acc (some spec) = add_request acc (extract_pod_requests fl spec)

  -- One round of the loop of `sum_pod_allocation`.
  abbrev pub add_pod : Figures → Pod → Figures
  add_pod acc pod = if is_non_terminal pod.phase then add_spec acc pod.spec else acc

  unfoldable pub sum_pods : Figures → List Pod → Figures
  sum_pods acc [] = acc
  sum_pods acc (pod ∷ pods) = sum_pods (add_pod acc pod) pods

  unfoldable pub sum_pod_allocation : List Pod → Figures
  unfolding sum_pods
  sum_pod_allocation pods = sum_pods (pos 0, pos 0) pods

  -- `now` is the reading of `now_rfc3339`.
  unfoldable pub build_allocation_status :
      String → Figures → Figures → ℤ × ℤ → AllocationStatus fl.F
  build_allocation_status now allocated total_supply budgets =
      let ceilings = ceiling_per_resource total_supply budgets in
      record {
        allocated_cpu_milli = allocated.0;
        allocated_memory_bytes = allocated.1;
        ceiling_cpu_milli = ceilings.0;
        ceiling_memory_bytes = ceilings.1;
        utilization_percent_cpu = ratio fl allocated.0 ceilings.0;
        utilization_percent_memory = ratio fl allocated.1 ceilings.1;
        last_updated = now;
        effective_cpu_budget_percent = budgets.0;
        effective_memory_budget_percent = budgets.1;
      }

  -- The status that `recompute` writes.
  abbrev pub fresh_status :
      String → List Pod → Store ClusterCapacity → AllocationSpec → AllocationStatus fl.F
  fresh_status now pods capacity_store spec =
      build_allocation_status now (sum_pod_allocation pods)
        (totals_of fl (cached_supply capacity_store)) (resolve_effective_budgets spec)

  module _ (server : Api (Allocation fl.F) (AllocationStatus fl.F)) where
    -- The match on the budget GET.
    abbrev pub after_get :
        String
        → List Pod
        → Store ClusterCapacity
        → Result KubeError (Allocation fl.F)
        → server.Server
        → server.Server
    after_get now pods capacity_store (ok allocation) s =
        (server.patch_status (fresh_status now pods capacity_store allocation.spec) s).1
    after_get now pods capacity_store (err e) s =
        if is_not_found e then (ensure_singleton server default_allocation_singleton s).1 else s

    unfoldable pub recompute :
        String → List Pod → Store ClusterCapacity → server.Server → server.Server
    recompute now pods capacity_store s =
        let (result, s') = server.get s in after_get now pods capacity_store result s'
