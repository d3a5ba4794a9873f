-- ===== src/Tests/Crowded.antt =====
-- Interleavings of admissions and ticks.
use emergency_ration_webhook.Common.{◌+◌, Option, none, some, [], ◌∷◌, true, ◌≡◌, refl, arith}
use emergency_ration_webhook.Common.Int.{ℤ, pos, div_euclid, rem_euclid, trem}
use emergency_ration_webhook.Common.Text.{pad, show_ℕ}
use emergency_ration_webhook.Common.Word.{clamp}
use emergency_ration_webhook.K8s.{Pod, AdmissionRequest}
use emergency_ration_webhook.Crd.Allocation.{
  AllocationStatus, Allocation, cluster_allocation_name, resolve_effective_budgets,
}
use emergency_ration_webhook.TimeUtil.{rfc3339_from_unix, stamp, civil_from_days}
use emergency_ration_webhook.Webhook.Admission.{ceiling_per_resource, ceiling_single}
use emergency_ration_webhook.Webhook.Evaluate.{evaluate, cached_allocation}
use emergency_ration_webhook.Controllers.Demand.{
  fresh_status, recompute, build_allocation_status, sum_pod_allocation,
}
use emergency_ration_webhook.Controllers.Demand.Total.{pod_demand, cpu, memory}
use emergency_ration_webhook.System.Interleaving.{
  Setting, Cluster, admitted, recomputed, Reach, here, next, IsSteady, share_cpu,
}
use emergency_ration_webhook.System.Interleaving.Bound.{Counts, IsBounded, Reach-IsBounded}
use emergency_ration_webhook.Tests.Samples.{
  whole, plain_api, store_of, small, budget, budget_spec, supply, capacities,
}
use emergency_ration_webhook.Tests.Decision.{decision_runs, whole_orderly, own}
use emergency_ration_webhook.Tests.Servers.{
  allocations, allocations_laws, allocations_laws-IsAnswering,
}

-- Room for half of the budget between two ticks.
abbrev setting : Setting
setting = record {
  spec = budget_spec;
  capacity_store = capacities;
  supply_cpu = 1000;
  supply_memory = 10000;
  threshold = 30;
  own = own;
  slack_cpu = 1000;
  slack_memory = 5000;
}

abbrev Town : Type 0
Town = Cluster whole plain_api allocations setting store_of

cached-current :
    (s : Option (Allocation ℤ)) {o : Allocation ℤ}
    → s ≡ some o
    → o.name ≡ cluster_allocation_name
    → cached_allocation whole (store_of s) ≡ some o
cached-current s h named = rw (h, named) refl

patch-keeps_name :
    (s : Option (Allocation ℤ)) (t : AllocationStatus ℤ) {o o' : Allocation ℤ}
    → s ≡ some o
    → (allocations.patch_status t s).1 ≡ some o'
    → o'.name ≡ o.name
patch-keeps_name none t h k = cc
patch-keeps_name (some p) t h k = cc

steady : IsSteady whole plain_api allocations setting store_of allocations_laws
unfolding decision_runs clamp resolve_effective_budgets
steady = record {
  current = cached-current;
  keeps_name = patch-keeps_name;
  capacity = supply;
  supply = refl;
  totals = refl;
  enforced = refl;
  small_cpu = omega arith;
  small_memory = omega arith;
  small_threshold = omega arith;
  room_cpu = omega arith;
  room_memory = omega arith;
}

abbrev pod : Pod
pod = record {
  spec = some (record {
    containers =
        record {
          resources = some (record {
            requests = some (("cpu", "500m") ∷ ("memory", "1000") ∷ []);
            limits = none;
          });
        }
        ∷ [];
    init_containers = none;
    priority_class_name = none;
  });
  phase = none;
}

abbrev submission : AdmissionRequest
submission = record small { object = some pod }

-- An empty cluster, counted at second 10.
abbrev calm : Town
calm = record {
  pods = [];
  store = some (record budget {
    status = some (fresh_status whole (rfc3339_from_unix (pos 10)) [] capacities budget_spec);
  });
  unseen_cpu = 0;
  unseen_memory = 0;
}

calm-Counts :
    Counts whole whole_orderly plain_api allocations allocations_laws allocations_laws-IsAnswering
      setting store_of steady [] calm.store
calm-Counts = record {
  written = pos 10;
  alloc = record budget {
    status = some (fresh_status whole (rfc3339_from_unix (pos 10)) [] capacities budget_spec);
  };
  held = refl;
  kept = refl;
  named = refl;
  status = refl;
  early = omega arith;
  late = omega arith;
}

submission-allowed :
    (evaluate whole plain_api submission
      (store_of calm.store)
      capacities
      (pos 15)
      30
      own).response.allowed
    ≡ true
unfolding decision_runs build_allocation_status rfc3339_from_unix stamp pad civil_from_days
    div_euclid show_ℕ rem_euclid trem ceiling_per_resource ceiling_single clamp
    resolve_effective_budgets sum_pod_allocation
submission-allowed = refl

-- The pod is admitted, and a tick counts it.
abbrev busy : Town
busy = record calm {
  pods = pod ∷ [];
  unseen_cpu = 0 + pod_demand whole cpu pod;
  unseen_memory = 0 + pod_demand whole memory pod;
}

abbrev counted : Town
counted = record busy {
  store = recompute whole allocations (rfc3339_from_unix (pos 20)) busy.pods capacities busy.store;
  unseen_cpu = 0;
  unseen_memory = 0;
}

calm-counted : Reach whole plain_api allocations setting store_of calm counted
unfolding decision_runs
calm-counted =
    next
      (next here (
        admitted calm submission pod (pos 15) refl refl refl submission-allowed (omega arith)
          (omega arith)))
      (recomputed busy (pos 20) (omega arith) (omega arith))

Reach-IsBounded_example :
    IsBounded whole whole_orderly plain_api allocations allocations_laws
      allocations_laws-IsAnswering setting store_of steady counted.pods
Reach-IsBounded_example =
    Reach-IsBounded whole whole_orderly plain_api allocations allocations_laws
      allocations_laws-IsAnswering setting store_of steady calm calm-Counts (omega arith)
      (omega arith) calm-counted

ceiling : share_cpu setting ≡ 800
unfolding clamp resolve_effective_budgets
ceiling = refl
