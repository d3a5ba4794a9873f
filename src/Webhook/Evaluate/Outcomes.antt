-- ===== src/Webhook/Evaluate/Outcomes.antt =====
-- Every outcome of the decision of webhook/handler.rs is a rejection, a rejection with the context
-- of the budget, a settled budget check or an exemption.
use emergency_ration_webhook.Common.{ℕ, String, Option, none, some, ◌≡◌, inl, inr, refl, Bool-cases}
use emergency_ration_webhook.Common.Int.{ℤ}
use emergency_ration_webhook.Common.Result.{Result, ok, err}
use emergency_ration_webhook.Common.Float.{Float}
use emergency_ration_webhook.K8s.{AdmissionRequest, AdmissionApi, Store}
use emergency_ration_webhook.Crd.Allocation.{
  EnforcementMode, enforce, ExemptionReason, AllocationStatus, Allocation,
}
use emergency_ration_webhook.Crd.ClusterCapacity.{ClusterCapacity, ClusterCapacityStatus}
use emergency_ration_webhook.Webhook.Failure.{AdmissionError}
use emergency_ration_webhook.Webhook.Admission.{Figures, AdmissionVerdict, check_budget}
use emergency_ration_webhook.Webhook.Summary.{
  Freshness, DecisionOutcome, with_context, exempt_summary,
}
use emergency_ration_webhook.Webhook.Evaluate.{
  reject, allocated_of, ceilings_of, settle, budget_stage, supply_stage, freshness_stage,
  exemption_stage, status_stage, allocation_stage, evaluate,
}

module _ (fl : Float) (kube : AdmissionApi) (request : AdmissionRequest) where
  -- The ways in which the decision can end.
  pub data Outcome : DecisionOutcome → Type 0 where
    rejection :
        (e : AdmissionError) (mode : EnforcementMode) → Outcome (reject fl kube e request mode)
    unreadable :
        (e : AdmissionError) (mode : EnforcementMode) (seconds budget : ℤ) (totals : Figures)
        → Outcome (with_context seconds budget totals (reject fl kube e request mode))
    exemption :
        (reason : ExemptionReason) (mode : EnforcementMode) (o : DecisionOutcome)
        → o ≡ record { response = kube.admit request; summary = exempt_summary request reason mode }
        → Outcome o
    settled :
        (status : AllocationStatus fl.F) (budget seconds : ℤ) (mode : EnforcementMode)
        (effective totals : Figures) (v : AdmissionVerdict)
        → v ≡ check_budget (allocated_of fl status) effective (ceilings_of fl status)
        → Outcome (settle fl kube request status budget seconds mode effective totals v)

  module _ (alloc : Allocation fl.F) (status : AllocationStatus fl.F) (mode : EnforcementMode) where
    budget_stage-Outcome :
        (freshness : Freshness) (capacity : ClusterCapacityStatus)
        (r : Result AdmissionError Figures)
        → Outcome (budget_stage fl kube request alloc status mode freshness capacity r)
    unfolding budget_stage
    budget_stage-Outcome freshness capacity (err e) = unreadable e mode _ _ _
    budget_stage-Outcome freshness capacity (ok effective) =
        settled status _ _ mode effective _ _ refl

    supply_stage-Outcome :
        (freshness : Freshness) (x : Option ClusterCapacityStatus)
        → Outcome (supply_stage fl kube request alloc status mode freshness x)
    unfolding supply_stage
    supply_stage-Outcome freshness none = rejection _ mode
    supply_stage-Outcome freshness (some capacity) = budget_stage-Outcome freshness capacity _

    freshness_stage-Outcome :
        (capacity_store : Store ClusterCapacity) (threshold : ℕ) (freshness : Freshness)
        → Outcome
            (freshness_stage fl kube request alloc status mode capacity_store threshold freshness)
    unfolding freshness_stage
    freshness_stage-Outcome capacity_store threshold freshness = elim (Bool-cases freshness.stale) [
      | inl old ↦ rw old (rejection _ mode)
      | inr fresh ↦ simp fresh (supply_stage-Outcome freshness _)
    ]

    exemption_stage-Outcome :
        (capacity_store : Store ClusterCapacity) (now : ℤ) (threshold : ℕ)
        (x : Option ExemptionReason)
        → Outcome (exemption_stage fl kube request alloc status mode capacity_store now threshold x)
    unfolding exemption_stage
    exemption_stage-Outcome capacity_store now threshold none =
        freshness_stage-Outcome capacity_store threshold _
    exemption_stage-Outcome capacity_store now threshold (some reason) =
        exemption reason mode _ refl

  status_stage-Outcome :
      (alloc : Allocation fl.F) (capacity_store : Store ClusterCapacity) (now : ℤ) (threshold : ℕ)
      (own : String) (x : Option (AllocationStatus fl.F))
      → Outcome (status_stage fl kube request alloc capacity_store now threshold own x)
  unfolding status_stage
  status_stage-Outcome alloc capacity_store now threshold own none = rejection _ _
  status_stage-Outcome alloc capacity_store now threshold own (some status) =
      exemption_stage-Outcome alloc status _ capacity_store now threshold _

  allocation_stage-Outcome :
      (capacity_store : Store ClusterCapacity) (now : ℤ) (threshold : ℕ) (own : String)
      (x : Option (Allocation fl.F))
      → Outcome (allocation_stage fl kube request capacity_store now threshold own x)
  unfolding allocation_stage
  allocation_stage-Outcome capacity_store now threshold own none = rejection _ enforce
  allocation_stage-Outcome capacity_store now threshold own (some alloc) =
      status_stage-Outcome alloc capacity_store now threshold own _

  pub evaluate-Outcome :
      (allocation_store : Store (Allocation fl.F)) (capacity_store : Store ClusterCapacity)
      (now : ℤ) (threshold : ℕ) (own : String)
      → Outcome (evaluate fl kube request allocation_store capacity_store now threshold own)
  unfolding evaluate
  evaluate-Outcome allocation_store capacity_store now threshold own =
      allocation_stage-Outcome capacity_store now threshold own _
