-- ===== src/Tests/Decision.antt =====
-- Runs of the decision of webhook/handler.rs.
use emergency_ration_webhook.Common.{
  [], none, ◌∷◌, String, some, true, false, ◌≡◌, ◌↔◌, refl, arith,
}
use emergency_ration_webhook.Common.Int.{ℤ, pos, negsuc, ltb_ℤ, ◌≤ℤ◌, ◌+ℤ◌, ◌-ℤ◌, ◌*ℤ◌, tdiv}
use emergency_ration_webhook.Common.Word.{saturate, saturating_add, saturating_sub, wrap64}
use emergency_ration_webhook.K8s.{get, update, AdmissionRequest, Container}
use emergency_ration_webhook.Crd.Allocation.{
  dry_run, check_exemption, list_contains, resolve_enforcement_mode,
}
use emergency_ration_webhook.Resources.Quantity.{
  parse_memory, parse_cpu, parse_number, to_i64, split_suffix, parse_integer,
}
use emergency_ration_webhook.Resources.PodRequests.{
  quantity_of, container_requests, sum_regular, max_init, extract_pod_requests,
}
use emergency_ration_webhook.TimeUtil.{days_from_civil, parse_rfc3339}
use emergency_ration_webhook.Webhook.Admission.{check_budget, violation_of}
use emergency_ration_webhook.Webhook.Summary.{deny, DecisionOutcome, assess_freshness, decision}
use emergency_ration_webhook.Webhook.Evaluate.{
  pod_request, effective_request, settle, budget_stage, supply_stage, freshness_stage,
  exemption_stage, status_stage, allocation_stage, evaluate,
}
use emergency_ration_webhook.Webhook.Evaluate.FailClosed.{IsAdmissible, evaluate-admits_iff}
use emergency_ration_webhook.Webhook.Evaluate.Verdicts.{IsCoherent, evaluate-IsCoherent}
use emergency_ration_webhook.Webhook.Evaluate.Modes.{IsSoftened, with_mode, evaluate-IsSoftened}
use emergency_ration_webhook.Webhook.Observe.{record_metrics}
use emergency_ration_webhook.Webhook.Observe.Counting.{IsCountedOnce, evaluate-IsCountedOnce}
use emergency_ration_webhook.Webhook.Handler.{handle}
use emergency_ration_webhook.Webhook.Handler.Guarded.{IsServed, handle-admits_iff}
use emergency_ration_webhook.Resources.Quantity.Range.{IsOrderly}
use emergency_ration_webhook.Webhook.Evaluate.Delta.{effective_request-delta}
use emergency_ration_webhook.Common.Result.{ok}
use emergency_ration_webhook.Tests.Samples.{
  whole, plain_api, store_of, small, large, budget, budget_status, budgets, capacities, direct,
  state, calm_run,
}

abbrev pub own : String
own = "capacity-admission"

abbrev small_outcome : DecisionOutcome
small_outcome = evaluate whole plain_api small budgets capacities (pos 15) 30 own

abbrev large_outcome : DecisionOutcome
large_outcome = evaluate whole plain_api large budgets capacities (pos 15) 30 own

unfoldable pub decision_runs : Unit {0}
unfolding evaluate allocation_stage status_stage exemption_stage freshness_stage supply_stage
    budget_stage settle check_exemption list_contains resolve_enforcement_mode assess_freshness
    parse_rfc3339 effective_request pod_request extract_pod_requests sum_regular max_init
    container_requests quantity_of get parse_cpu parse_memory parse_number to_i64 split_suffix
    parse_integer check_budget violation_of saturating_add saturating_sub saturate wrap64 decision
    ◌+ℤ◌ ◌-ℤ◌ ◌*ℤ◌ days_from_civil tdiv
decision_runs = tt

small_admitted : small_outcome.response.allowed ≡ true
unfolding decision_runs
small_admitted = refl

large_denied : large_outcome.summary.verdict ≡ deny
unfolding decision_runs
large_denied = refl

-- Five seconds after the refresh the status is fresh, and after a minute it is stale.
recent_status : (assess_freshness budget_status.last_updated (pos 15) 30).stale ≡ false
unfolding decision_runs
recent_status = refl

stale_status : (assess_freshness budget_status.last_updated (pos 71) 30).stale ≡ true
unfolding decision_runs
stale_status = refl

evaluate-admits_iff_example :
    (small_outcome.response.allowed ≡ true)
    ↔ IsAdmissible whole small capacities (pos 15) 30 budgets own
evaluate-admits_iff_example =
    evaluate-admits_iff whole plain_api small budgets capacities (pos 15) 30 own

handle-admits_iff_example :
    (((handle direct whole plain_api state (some small) calm_run).response.allowed ≡ true)
      ↔ IsServed direct whole plain_api state (some small) calm_run)
    × ((handle direct whole plain_api
          (record state { decision_timeout_ms = 1 })
          (some small)
          (record calm_run { latency_ms = pos 5000 })).response
        ≡ (handle direct whole plain_api state (some small) calm_run).response)
handle-admits_iff_example =
    handle-admits_iff direct whole plain_api state (some small) calm_run 1 (pos 5000)

evaluate-IsCoherent_example : IsCoherent plain_api large large_outcome
evaluate-IsCoherent_example =
    evaluate-IsCoherent whole plain_api large budgets capacities (pos 15) 30 own

evaluate-IsSoftened_example : IsSoftened large_outcome (
    evaluate whole plain_api large
      (store_of (some (with_mode (some dry_run) budget)))
      capacities
      (pos 15)
      30
      own)
unfolding resolve_enforcement_mode
evaluate-IsSoftened_example =
    evaluate-IsSoftened whole plain_api large budget budgets
      (store_of (some (with_mode (some dry_run) budget))) capacities (pos 15) 30 own refl refl refl

evaluate-IsCountedOnce_example :
    IsCountedOnce small_outcome.summary.verdict (record_metrics whole small_outcome.summary)
evaluate-IsCountedOnce_example =
    evaluate-IsCountedOnce whole plain_api small budgets capacities (pos 15) 30 own

product_nonneg : (x z : ℤ) → ltb_ℤ x (pos 0) ≡ false → pos 0 ≤ℤ z → ltb_ℤ (x *ℤ z) (pos 0) ≡ false
unfolding ◌*ℤ◌
product_nonneg (pos a) (pos b) h k = ground arith
product_nonneg (pos a) (negsuc b) h k = ground arith
product_nonneg (negsuc a) z h k = ground arith

-- Floats without a fraction are orderly.
pub whole_orderly : IsOrderly whole
unfolding saturate
whole_orderly = record { product = product_nonneg; cast = λ x h. ground arith }

-- The larger pod takes the place of the small one.
abbrev grown : AdmissionRequest
grown = record large { operation = update; old_object = small.object }

effective_request-delta_example :
    effective_request whole grown ≡ ok (pos 2000 -ℤ pos 100, pos 1000 -ℤ pos 1000)
unfolding decision_runs
effective_request-delta_example =
    effective_request-delta whole whole_orderly grown (pos 2000, pos 1000) (pos 100, pos 1000) refl
      refl refl

abbrev huge_container : Container
huge_container = record {
  resources =
      some (record { requests = some (("memory", "9223372036854775807") ∷ []); limits = none });
}
