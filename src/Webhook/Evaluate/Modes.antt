-- ===== src/Webhook/Evaluate/Modes.antt =====
-- What dry-run mode changes in the decision of webhook/handler.rs, and the agreement of `decide`
-- with `evaluate`.
use emergency_ration_webhook.Common.{
  ℕ, String, Option, none, some, true, false, ◌≡◌, inl, inr, refl, sym, ap, ◌∙◌, Bool-cases,
}
use emergency_ration_webhook.Common.Int.{ℤ}
use emergency_ration_webhook.Common.Result.{Result, ok, err, ◌>>=◌, Result-cases}
use emergency_ration_webhook.Common.Float.{Float}
use emergency_ration_webhook.K8s.{
  Operation, create, update, delete, connect, AdmissionRequest, AdmissionResponse, AdmissionApi,
  Store,
}
use emergency_ration_webhook.Crd.Allocation.{
  EnforcementMode, enforce, dry_run, ExemptionReason, AllocationStatus, Allocation, check_exemption,
  resolve_enforcement_mode,
}
use emergency_ration_webhook.Crd.ClusterCapacity.{ClusterCapacity, ClusterCapacityStatus}
use emergency_ration_webhook.Webhook.Failure.{AdmissionError, into_response}
use emergency_ration_webhook.Webhook.Admission.{
  Figures, AdmissionVerdict, admit, deny, check_budget,
}
use emergency_ration_webhook.Webhook.Summary.{
  Freshness, assess_freshness, DecisionVerdict, allow, dry_run_deny, exempt, error, DecisionOutcome,
  with_context, reject_outcome, decision, exempt_summary,
}
use emergency_ration_webhook.Webhook.Summary
use emergency_ration_webhook.Webhook.Evaluate.{
  pod_request, delta, effective_request, decide_delta, allocated_of, ceilings_of, decide,
  respond_decide, settle, budget_stage, supply_stage, freshness_stage, exemption_stage,
  status_stage, allocation_stage, evaluate, cached_supply, cached_allocation, mode_of, exemption_of,
}

-- The allocation with another enforcement mode.
abbrev pub with_mode : {F : Type 0} → Option EnforcementMode → Allocation F → Allocation F
with_mode mode alloc = record alloc { spec = record (alloc.spec) { enforcement_mode = mode } }

-- The second outcome, against the first one's verdict: a denial has become a dry-run denial that
-- lets the pod in; anything else keeps its verdict and its response.
abbrev pub SoftenedFrom : DecisionVerdict → DecisionOutcome → DecisionOutcome → Type 0
SoftenedFrom Summary.deny o o' = (o'.summary.verdict ≡ dry_run_deny) × (o'.response.allowed ≡ true)
SoftenedFrom v o o' = (o'.summary.verdict ≡ v) × (o'.response ≡ o.response)

abbrev pub IsSoftened : DecisionOutcome → DecisionOutcome → Type 0
IsSoftened o o' = SoftenedFrom o.summary.verdict o o'

module _ (fl : Float) (kube : AdmissionApi) (request : AdmissionRequest)
    (alloc alloc' : Allocation fl.F) (status : AllocationStatus fl.F) where
  settle-IsSoftened :
      (budget budget' seconds : ℤ) (effective totals : Figures) (v : AdmissionVerdict)
      → IsSoftened
          (settle fl kube request status budget seconds enforce effective totals v)
          (settle fl kube request status budget' seconds dry_run effective totals v)
  unfolding settle decision
  settle-IsSoftened budget budget' seconds effective totals admit = (refl, refl)
  settle-IsSoftened budget budget' seconds effective totals (deny vs) =
      (refl, kube.admit-allowed request)

  budget_stage-IsSoftened :
      (freshness : Freshness) (capacity : ClusterCapacityStatus) (r : Result AdmissionError Figures)
      → IsSoftened
          (budget_stage fl kube request alloc status enforce freshness capacity r)
          (budget_stage fl kube request alloc' status dry_run freshness capacity r)
  unfolding budget_stage with_context reject_outcome
  budget_stage-IsSoftened freshness capacity (err e) = (refl, refl)
  budget_stage-IsSoftened freshness capacity (ok effective) = settle-IsSoftened _ _ _ effective _ _

  supply_stage-IsSoftened :
      (freshness : Freshness) (x : Option ClusterCapacityStatus)
      → IsSoftened
          (supply_stage fl kube request alloc status enforce freshness x)
          (supply_stage fl kube request alloc' status dry_run freshness x)
  unfolding supply_stage reject_outcome
  supply_stage-IsSoftened freshness none = (refl, refl)
  supply_stage-IsSoftened freshness (some capacity) = budget_stage-IsSoftened freshness capacity _

  freshness_stage-IsSoftened :
      (capacity_store : Store ClusterCapacity) (threshold : ℕ) (freshness : Freshness)
      → IsSoftened
          (freshness_stage fl kube request alloc status enforce capacity_store threshold freshness)
          (freshness_stage fl kube request alloc' status dry_run capacity_store threshold freshness)
  unfolding freshness_stage reject_outcome
  freshness_stage-IsSoftened capacity_store threshold freshness =
      elim (Bool-cases freshness.stale) [
        | inl old ↦ simp old (refl, refl)
        | inr fresh ↦ simp fresh (supply_stage-IsSoftened freshness _)
      ]

  exemption_stage-IsSoftened :
      (capacity_store : Store ClusterCapacity) (now : ℤ) (threshold : ℕ)
      (x : Option ExemptionReason)
      → IsSoftened
          (exemption_stage fl kube request alloc status enforce capacity_store now threshold x)
          (exemption_stage fl kube request alloc' status dry_run capacity_store now threshold x)
  unfolding exemption_stage exempt_summary
  exemption_stage-IsSoftened capacity_store now threshold none =
      freshness_stage-IsSoftened capacity_store threshold _
  exemption_stage-IsSoftened capacity_store now threshold (some reason) = (refl, refl)

status_stage-IsSoftened :
    (fl : Float) (kube : AdmissionApi) (request : AdmissionRequest) (alloc : Allocation fl.F)
    (capacity_store : Store ClusterCapacity) (now : ℤ) (threshold : ℕ) (own : String)
    (x : Option (AllocationStatus fl.F))
    → mode_of fl alloc ≡ enforce
    → IsSoftened (status_stage fl kube request alloc capacity_store now threshold own x) (
        status_stage fl kube request
          (with_mode (some dry_run) alloc)
          capacity_store
          now
          threshold
          own
          x)
unfolding status_stage reject_outcome check_exemption resolve_enforcement_mode
status_stage-IsSoftened fl kube request alloc capacity_store now threshold own none e = (refl, refl)
status_stage-IsSoftened fl kube request alloc capacity_store now threshold own (some status) e =
    simp e (
      exemption_stage-IsSoftened fl kube request alloc (with_mode (some dry_run) alloc) status
        capacity_store now threshold (exemption_of fl request alloc own))

-- Switching the cached allocation from enforce to dry-run mode turns a denial into a dry-run denial
-- that is allowed, and leaves every other verdict, and the response under it, as they were.
pub evaluate-IsSoftened :
    (fl : Float) (kube : AdmissionApi) (request : AdmissionRequest) (alloc : Allocation fl.F)
    (store store' : Store (Allocation fl.F)) (capacity_store : Store ClusterCapacity) (now : ℤ)
    (threshold : ℕ) (own : String)
    → mode_of fl alloc ≡ enforce
    → cached_allocation fl store ≡ some alloc
    → cached_allocation fl store' ≡ some (with_mode (some dry_run) alloc)
    → IsSoftened
        (evaluate fl kube request store capacity_store now threshold own)
        (evaluate fl kube request store' capacity_store now threshold own)
unfolding evaluate allocation_stage
evaluate-IsSoftened fl kube request alloc store store' capacity_store now threshold own e f f' =
    rw (f, f')
      (status_stage-IsSoftened fl kube request alloc capacity_store now threshold own alloc.status
        e)

-- The response that `decide` stands for.
abbrev pub answer :
    AdmissionApi → AdmissionRequest → Result AdmissionError AdmissionResponse → AdmissionResponse
answer kube request (ok response) = response
answer kube request (err e) = into_response kube e request.uid

module _ (fl : Float) (kube : AdmissionApi) (request : AdmissionRequest) (alloc : Allocation fl.F)
    (status : AllocationStatus fl.F) where
  settle-decide :
      (budget seconds : ℤ) (effective totals : Figures) (v : AdmissionVerdict)
      → (settle fl kube request status budget seconds enforce effective totals v).response
        ≡ answer kube request (respond_decide fl kube request v)
  unfolding settle
  settle-decide budget seconds effective totals admit = refl
  settle-decide budget seconds effective totals (deny vs) = refl

  budget_stage-answer :
      (freshness : Freshness) (capacity : ClusterCapacityStatus) (r : Result AdmissionError Figures)
      → (budget_stage fl kube request alloc status enforce freshness capacity r).response
        ≡ answer kube request (
            r >>= λ effective.
            respond_decide fl kube request
              (check_budget (allocated_of fl status) effective (ceilings_of fl status)))
  unfolding budget_stage with_context reject_outcome
  budget_stage-answer freshness capacity (err e) = refl
  budget_stage-answer freshness capacity (ok effective) = settle-decide _ _ effective _ _

-- The figures that `decide` computes for itself are those of `evaluate`.
decide-effective_request :
    (fl : Float) (kube : AdmissionApi) (request : AdmissionRequest) (status : AllocationStatus fl.F)
    → decide fl kube request status ≡ (
        effective_request fl request >>= λ effective.
        respond_decide fl kube request
          (check_budget (allocated_of fl status) effective (ceilings_of fl status)))
unfolding decide effective_request
decide-effective_request fl kube request status =
    elim (Result-cases (pod_request fl request.object)) [
      | inl (new, e) ↦ rw e (operation-cases request.operation new)
      | inr (x, e) ↦ rw e refl
    ]
  where
    operation-cases :
        (operation : Operation) (new : Figures)
        → (decide_delta fl kube operation request new >>= λ effective.
            respond_decide fl kube request
              (check_budget (allocated_of fl status) effective (ceilings_of fl status)))
          ≡ (delta fl operation request new >>= λ effective.
              respond_decide fl kube request
                (check_budget (allocated_of fl status) effective (ceilings_of fl status)))
    operation-cases create new = refl
    operation-cases update new = refl
    operation-cases delete new = refl
    operation-cases connect new = refl

-- In enforce mode, for a pod that is not exempt, with a fresh status and a known supply, the
-- response of `evaluate` is that of `decide`: its admission, or the rejection of its error.
pub evaluate-decide :
    (fl : Float) (kube : AdmissionApi) (request : AdmissionRequest) (alloc : Allocation fl.F)
    (status : AllocationStatus fl.F) (capacity : ClusterCapacityStatus)
    (store : Store (Allocation fl.F)) (capacity_store : Store ClusterCapacity) (now : ℤ)
    (threshold : ℕ) (own : String)
    → cached_allocation fl store ≡ some alloc
    → alloc.status ≡ some status
    → mode_of fl alloc ≡ enforce
    → exemption_of fl request alloc own ≡ none
    → (assess_freshness status.last_updated now threshold).stale ≡ false
    → cached_supply capacity_store ≡ some capacity
    → (evaluate fl kube request store capacity_store now threshold own).response
      ≡ answer kube request (decide fl kube request status)
unfolding evaluate allocation_stage status_stage exemption_stage freshness_stage supply_stage
evaluate-decide fl kube request alloc status capacity store capacity_store now threshold own f i m x
      fresh supply =
    simp (f, i, m, x, fresh, supply)
      (budget_stage-answer fl kube request alloc status _ capacity _
        ∙ ap (answer kube request) (sym (decide-effective_request fl kube request status)))
