-- ===== src/Webhook/Evaluate.antt =====
-- webhook/handler.rs: the decision. `evaluate` is cut where it returns early, each part a function
-- of what the code has read so far.
pub mod FailClosed
pub mod Outcomes
pub mod Verdicts
pub mod Modes
pub mod Delta
use emergency_ration_webhook.Common.{
  ℕ, String, Option, none, some, List, [], ◌∷◌, map, ◌==ˢ◌, if◌then◌else◌,
}
use emergency_ration_webhook.Common.Int.{ℤ, pos, ◌-ℤ◌}
use emergency_ration_webhook.Common.Word.{wrap64}
use emergency_ration_webhook.Common.Result.{Result, ok, err, ◌>>=◌, and_then}
use emergency_ration_webhook.Common.Float.{Float}
use emergency_ration_webhook.K8s.{
  Pod, PodSpec, Operation, create, update, delete, connect, AdmissionRequest, AdmissionResponse,
  AdmissionApi, Store,
}
use emergency_ration_webhook.Crd.Allocation.{
  EnforcementMode, enforce, dry_run, as_log_str, resolve_enforcement_mode, ExemptionReason,
  check_exemption, AllocationStatus, Allocation, cluster_allocation_name,
}
use emergency_ration_webhook.Crd.ClusterCapacity.{
  ClusterCapacity, ClusterCapacityStatus, cluster_capacity_name,
}
use emergency_ration_webhook.Resources.Quantity.{QuantityParseError, invalid}
use emergency_ration_webhook.Resources.PodRequests.{extract_pod_requests}
use emergency_ration_webhook.Webhook.Failure.{
  ◌<>◌, cpu, memory, BudgetViolation, message_line, join_lines, allocation, cluster_capacity,
  AdmissionError, over_budget, capacity_data_stale, capacity_data_missing, quantity_parse_failure,
  into_response,
}
use emergency_ration_webhook.Webhook.Admission.{
  Figures, AdmissionVerdict, admit, deny, check_budget,
}
use emergency_ration_webhook.Webhook.Summary.{
  Freshness, assess_freshness, DecisionVerdict, allow, dry_run_deny, error, within, mark_over,
  DecisionOutcome, request_meta_of, decision, exempt_summary, with_context, reject_outcome,
}
use emergency_ration_webhook.Webhook.Summary

unfoldable pub dry_run_warning : List BudgetViolation → String
dry_run_warning violations =
    "Budget violations (dry-run): " <> join_lines (map message_line violations)

abbrev pub pod_priority_class : AdmissionRequest → Option String
pod_priority_class request =
    and_then (and_then request.object (λ pod. pod.spec)) (λ spec. spec.priority_class_name)

abbrev pub parse_failure : {A : Type 0} → Result QuantityParseError A → Result AdmissionError A
parse_failure (ok a) = ok a
parse_failure (err (invalid input reason)) = err (quantity_parse_failure "resources.requests" input)

abbrev pub cached_supply : Store ClusterCapacity → Option ClusterCapacityStatus
cached_supply capacity_store =
    and_then (capacity_store.find (λ c. c.name ==ˢ cluster_capacity_name)) (λ c. c.status)

module _ (fl : Float) where
  -- The match on the pod's spec.
  abbrev pub spec_request : Option PodSpec → Result AdmissionError Figures
  spec_request none = ok (pos 0, pos 0)
  spec_request (some spec) = parse_failure (extract_pod_requests fl spec)

  unfoldable pub pod_request : Option Pod → Result AdmissionError Figures
  pod_request pod = spec_request (and_then pod (λ p. p.spec))

  -- The request less the old object's, on an update.
  abbrev pub delta : Operation → AdmissionRequest → Figures → Result AdmissionError Figures
  delta update request new = do
    old ← pod_request request.old_object
    ok (wrap64 (new.0 -ℤ old.0), wrap64 (new.1 -ℤ old.1))
  delta create request new = ok new
  delta delete request new = ok new
  delta connect request new = ok new

  unfoldable pub effective_request : AdmissionRequest → Result AdmissionError Figures
  effective_request request = do
    new ← pod_request request.object
    delta request.operation request new

  abbrev pub allocated_of : AllocationStatus fl.F → Figures
  allocated_of status = (status.allocated_cpu_milli, status.allocated_memory_bytes)

  abbrev pub ceilings_of : AllocationStatus fl.F → Figures
  ceilings_of status = (status.ceiling_cpu_milli, status.ceiling_memory_bytes)

  abbrev pub mode_of : Allocation fl.F → EnforcementMode
  mode_of alloc = resolve_enforcement_mode alloc.spec.enforcement_mode

  abbrev pub exemption_of : AdmissionRequest → Allocation fl.F → String → Option ExemptionReason
  exemption_of request alloc own =
      check_exemption request.namespace (pod_priority_class request) alloc.spec own

  abbrev pub cached_allocation : Store (Allocation fl.F) → Option (Allocation fl.F)
  cached_allocation allocation_store =
      allocation_store.find (λ a. a.name ==ˢ cluster_allocation_name)

  module _ (kube : AdmissionApi) where
    abbrev pub respond_decide :
        AdmissionRequest → AdmissionVerdict → Result AdmissionError AdmissionResponse
    respond_decide request admit = ok (kube.admit request)
    respond_decide request (deny violations) = err (over_budget violations)

    -- The match of `decide` on the operation, which is its own.
    abbrev pub decide_delta : Operation → AdmissionRequest → Figures → Result AdmissionError Figures
    decide_delta update request new_request = do
      old_request ← pod_request request.old_object
      ok (wrap64 (new_request.0 -ℤ old_request.0), wrap64 (new_request.1 -ℤ old_request.1))
    decide_delta create request new_request = ok new_request
    decide_delta delete request new_request = ok new_request
    decide_delta connect request new_request = ok new_request

    -- `decide`.
    unfoldable pub decide :
        AdmissionRequest → AllocationStatus fl.F → Result AdmissionError AdmissionResponse
    decide request status = do
      new_request ← pod_request request.object
      effective ← decide_delta request.operation request new_request
      respond_decide request (check_budget (allocated_of status) effective (ceilings_of status))

    -- The rejections of `evaluate`, which carry the mode.
    abbrev pub reject : AdmissionError → AdmissionRequest → EnforcementMode → DecisionOutcome
    reject e request mode = reject_outcome kube e (request_meta_of request) error (as_log_str mode)

    -- The response and the verdict at the budget denial, by mode.
    abbrev pub denied :
        EnforcementMode
        → AdmissionRequest
        → List BudgetViolation
        → AdmissionResponse × DecisionVerdict
    denied dry_run request violations = (
      record (kube.admit request) { warnings = some (dry_run_warning violations ∷ []) },
      dry_run_deny,
    )
    denied enforce request violations =
        (into_response kube (over_budget violations) request.uid, Summary.deny)

    -- The match on `check_budget`.
    unfoldable pub settle :
        AdmissionRequest
        → AllocationStatus fl.F
        → ℤ
        → ℤ
        → EnforcementMode
        → Figures
        → Figures
        → AdmissionVerdict
        → DecisionOutcome
    settle request status budget_percent seconds mode effective totals admit = record {
      response = kube.admit request;
      summary =
          decision request budget_percent
            (status.effective_cpu_budget_percent, status.effective_memory_budget_percent) seconds
            mode (within cpu (allocated_of status) effective (ceilings_of status) totals.0)
            (within memory (allocated_of status) effective (ceilings_of status) totals.1);
    }
    settle request status budget_percent seconds mode effective totals (deny violations) =
        let summary =
          decision request budget_percent
            (status.effective_cpu_budget_percent, status.effective_memory_budget_percent) seconds
            mode
            (mark_over violations
              (within cpu (allocated_of status) effective (ceilings_of status) totals.0))
            (mark_over violations
              (within memory (allocated_of status) effective (ceilings_of status) totals.1)) in
        let (response, verdict) = denied mode request violations in
        record { response = response; summary = record summary { verdict = verdict } }

    -- The match on the effective request.
    unfoldable pub budget_stage :
        AdmissionRequest
        → Allocation fl.F
        → AllocationStatus fl.F
        → EnforcementMode
        → Freshness
        → ClusterCapacityStatus
        → Result AdmissionError Figures
        → DecisionOutcome
    budget_stage request alloc status mode freshness capacity (err e) =
        with_context freshness.seconds alloc.spec.budget_percent
          (capacity.total_allocatable_cpu_milli, capacity.total_allocatable_memory_bytes)
          (reject e request mode)
    budget_stage request alloc status mode freshness capacity (ok effective) =
        settle request status alloc.spec.budget_percent freshness.seconds mode effective
          (capacity.total_allocatable_cpu_milli, capacity.total_allocatable_memory_bytes)
          (check_budget (allocated_of status) effective (ceilings_of status))

    -- The match on the cached supply.
    unfoldable pub supply_stage :
        AdmissionRequest
        → Allocation fl.F
        → AllocationStatus fl.F
        → EnforcementMode
        → Freshness
        → Option ClusterCapacityStatus
        → DecisionOutcome
    supply_stage request alloc status mode freshness none =
        reject (capacity_data_missing cluster_capacity) request mode
    supply_stage request alloc status mode freshness (some capacity) =
        budget_stage request alloc status mode freshness capacity (effective_request request)

    -- The freshness check.
    unfoldable pub freshness_stage :
        AdmissionRequest
        → Allocation fl.F
        → AllocationStatus fl.F
        → EnforcementMode
        → Store ClusterCapacity
        → ℕ
        → Freshness
        → DecisionOutcome
    freshness_stage request alloc status mode capacity_store threshold freshness =
        if freshness.stale
        then reject (capacity_data_stale freshness.age_secs threshold) request mode
        else supply_stage request alloc status mode freshness (cached_supply capacity_store)

    -- The match on the exemption.
    unfoldable pub exemption_stage :
        AdmissionRequest
        → Allocation fl.F
        → AllocationStatus fl.F
        → EnforcementMode
        → Store ClusterCapacity
        → ℤ
        → ℕ
        → Option ExemptionReason
        → DecisionOutcome
    exemption_stage request alloc status mode capacity_store now threshold (some reason) = record {
      response = kube.admit request;
      summary = exempt_summary request reason mode;
    }
    exemption_stage request alloc status mode capacity_store now threshold none =
        freshness_stage request alloc status mode capacity_store threshold
          (assess_freshness status.last_updated now threshold)

    -- The match on the status of the cached allocation.
    unfoldable pub status_stage :
        AdmissionRequest
        → Allocation fl.F
        → Store ClusterCapacity
        → ℤ
        → ℕ
        → String
        → Option (AllocationStatus fl.F)
        → DecisionOutcome
    status_stage request alloc capacity_store now threshold own none =
        reject (capacity_data_missing allocation) request (mode_of alloc)
    status_stage request alloc capacity_store now threshold own (some status) =
        exemption_stage request alloc status (mode_of alloc) capacity_store now threshold
          (exemption_of request alloc own)

    -- The match on the cached allocation.
    unfoldable pub allocation_stage :
        AdmissionRequest
        → Store ClusterCapacity
        → ℤ
        → ℕ
        → String
        → Option (Allocation fl.F)
        → DecisionOutcome
    allocation_stage request capacity_store now threshold own none =
        reject (capacity_data_missing allocation) request enforce
    allocation_stage request capacity_store now threshold own (some alloc) =
        status_stage request alloc capacity_store now threshold own alloc.status

    unfoldable pub evaluate :
        AdmissionRequest
        → Store (Allocation fl.F)
        → Store ClusterCapacity
        → ℤ
        → ℕ
        → String
        → DecisionOutcome
    evaluate request allocation_store capacity_store now threshold own =
        allocation_stage request capacity_store now threshold own
          (cached_allocation allocation_store)
