-- ===== src/Tests/Whole.antt =====
-- Runs of the parts together: the clock, the loops of the controllers, and the decision on what they
-- wrote.
use emergency_ration_webhook.Common.{String, none, some, List, [], ◌∷◌, true, ◌≡◌, ◌↔◌, refl, arith}
use emergency_ration_webhook.Common.Int.{ℤ, pos, negsuc, ◌+ℤ◌, ◌≤ℤ◌}
use emergency_ration_webhook.Common.Result.{ok}
use emergency_ration_webhook.K8s.{Pod}
use emergency_ration_webhook.Crd.Allocation.{Allocation, resolve_effective_budgets}
use emergency_ration_webhook.TimeUtil.{parse_rfc3339, rfc3339_from_unix}
use emergency_ration_webhook.TimeUtil.RoundTrip.{parse_rfc3339-rfc3339_from_unix}
use emergency_ration_webhook.Webhook.Evaluate.{evaluate}
use emergency_ration_webhook.Controllers.Demand.{is_non_terminal, sum_pod_allocation, fresh_status}
use emergency_ration_webhook.Controllers.Demand.Total.{
  demand, cpu, memory, sum_pod_allocation-exact,
}
use emergency_ration_webhook.Controllers.Demand.Run.{Tick, tick, outside, run}
use emergency_ration_webhook.Controllers.Demand.Run.Healing as Demand
use emergency_ration_webhook.Controllers.Supply.Run as Supply
use emergency_ration_webhook.Controllers.Supply.Run.Healing as Current
use emergency_ration_webhook.System.Admission.{Fits, evaluate-Fits_iff}
use emergency_ration_webhook.Tests.Samples.{
  whole, plain_api, store_of, small, budget, budget_spec, supply, capacity, capacities,
}
use emergency_ration_webhook.Tests.Decision.{decision_runs, whole_orderly, own}
use emergency_ration_webhook.Tests.Control.{nodes}
use emergency_ration_webhook.Tests.Servers.{
  allocations, allocations_laws, allocations_laws-IsAnswering, clusters, clusters_laws,
  clusters_laws-IsAnswering,
}

parse_rfc3339-rfc3339_from_unix_example :
    parse_rfc3339 (rfc3339_from_unix (negsuc 86400)) ≡ some (negsuc 86400)
parse_rfc3339-rfc3339_from_unix_example =
    parse_rfc3339-rfc3339_from_unix (negsuc 86400) (omega arith) (omega arith)

-- A pod that runs, and one that has ended.
abbrev running : Pod
running = record {
  spec = some (record {
    containers =
        record {
          resources = some (record {
            requests = some (("cpu", "100m") ∷ ("memory", "1000") ∷ []);
            limits = none;
          });
        }
        ∷ [];
    init_containers = none;
    priority_class_name = none;
  });
  phase = some "Running";
}

abbrev ended : Pod
ended = record running { phase = some "Succeeded" }

abbrev crowd : List Pod
crowd = running ∷ ended ∷ running ∷ []

crowd-demand : (demand whole cpu crowd ≡ 200) × (demand whole memory crowd ≡ 2000)
unfolding decision_runs is_non_terminal
crowd-demand = (refl, refl)

sum_pod_allocation-exact_example :
    sum_pod_allocation whole crowd ≡ (pos (demand whole cpu crowd), pos (demand whole memory crowd))
sum_pod_allocation-exact_example =
    let (c, m) = crowd-demand in
    sum_pod_allocation-exact whole whole_orderly crowd (omega arith) (omega arith)

-- Someone deletes the singleton before the last ticks.
abbrev stroke : String → Tick
stroke now = record { now = now; pods = crowd; capacity_store = capacities }

run-IsUpToDate_example :
    Demand.IsUpToDate whole allocations allocations_laws allocations_laws-IsAnswering
      (stroke "third")
      (run whole allocations
        (stroke "first")
        (outside (λ s. none) ∷ tick (stroke "second") ∷ tick (stroke "third") ∷ [])
        (some budget))
run-IsUpToDate_example =
    Demand.run-IsUpToDate whole allocations allocations_laws allocations_laws-IsAnswering
      (stroke "first") (stroke "second") (stroke "third") (outside (λ s. none) ∷ []) (some budget)

abbrev stamps : Supply.Stamps
stamps = record { first = "now"; second = "later" }

run-IsCurrent_example :
    Current.IsUpToDate whole clusters clusters_laws clusters_laws-IsAnswering stamps nodes (
      Supply.run whole clusters stamps
        (ok nodes)
        (Supply.outside (λ s. none) ∷ Supply.changed stamps nodes ∷ [])
        (some capacity))
run-IsCurrent_example =
    Current.run-IsCurrent whole clusters clusters_laws clusters_laws-IsAnswering stamps stamps
      (ok nodes) (Supply.outside (λ s. none) ∷ []) nodes (some capacity)

-- The allocation that a recompute at second 10 leaves.
abbrev written : Allocation ℤ
written = record budget {
  status = some (fresh_status whole (rfc3339_from_unix (pos 10)) crowd capacities budget_spec);
}

evaluate-Fits_iff_example :
    ((evaluate whole plain_api small
        (store_of (some written))
        capacities
        (pos 15)
        30
        own).response.allowed
      ≡ true)
    ↔ ((pos 15 ≤ℤ pos 10 +ℤ pos 30)
        × Fits (demand whole cpu crowd) 100 1000 (resolve_effective_budgets budget_spec).0
        × Fits (demand whole memory crowd) 1000 10000 (resolve_effective_budgets budget_spec).1)
unfolding decision_runs
evaluate-Fits_iff_example =
    let (c, m) = crowd-demand in
    evaluate-Fits_iff whole whole_orderly plain_api small (store_of (some written)) capacities
      capacities crowd budget_spec (pos 10) (pos 15) 30 own 1000 10000 100 1000 {alloc = written}
      {capacity = supply} refl refl refl refl refl refl refl (omega arith) (omega arith)
      (omega arith) (omega arith) (omega arith) (omega arith) (omega arith)
