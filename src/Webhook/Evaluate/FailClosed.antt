-- ===== src/Webhook/Evaluate/FailClosed.antt =====
-- When the decision of webhook/handler.rs admits: an independent description of every admission,
-- and the agreement of response, verdict and error.
use emergency_ration_webhook.Common.{
  ℕ, String, Option, none, some, true, false, ◌≡◌, ◌↔◌, ◌⊎◌, inl, inr, refl, sym, Bool-cases,
  Option-cases,
}
use emergency_ration_webhook.Common.Int.{ℤ}
use emergency_ration_webhook.Common.Result.{Result, ok, err}
use emergency_ration_webhook.Common.Float.{Float}
use emergency_ration_webhook.K8s.{AdmissionRequest, AdmissionApi, Store}
use emergency_ration_webhook.Crd.Allocation.{
  EnforcementMode, enforce, dry_run, ExemptionReason, AllocationStatus, Allocation,
}
use emergency_ration_webhook.Crd.ClusterCapacity.{ClusterCapacity, ClusterCapacityStatus}
use emergency_ration_webhook.Webhook.Failure.{into_response, AdmissionError}
use emergency_ration_webhook.Webhook.Admission.{
  Figures, AdmissionVerdict, admit, deny, check_budget,
}
use emergency_ration_webhook.Webhook.Summary.{
  Freshness, assess_freshness, DecisionVerdict, error, with_context, reject_outcome, RequestMeta,
}
use emergency_ration_webhook.Webhook.Evaluate.{
  effective_request, allocated_of, ceilings_of, settle, budget_stage, supply_stage, freshness_stage,
  exemption_stage, status_stage, allocation_stage, evaluate, cached_supply, cached_allocation,
  mode_of, exemption_of,
}

module _ (fl : Float) where
  -- The budget admits the effective request, or denies it in dry-run mode.
  abbrev pub Passes : AdmissionVerdict → EnforcementMode → Type 0
  Passes admit mode = Unit
  Passes (deny vs) mode = mode ≡ dry_run

  module _ (request : AdmissionRequest) (capacity_store : Store ClusterCapacity) (now : ℤ)
      (threshold : ℕ) where
    -- What must hold for a pod that no exclusion exempts: the status is fresh, the supply is known,
    -- the request can be read, and the budget passes it.
    pub record IsWithinBudget (alloc : Allocation fl.F) (status : AllocationStatus fl.F)
        : Type 0 where
      pub fresh : (assess_freshness status.last_updated now threshold).stale ≡ false
      pub capacity : ClusterCapacityStatus
      pub supply : cached_supply capacity_store ≡ some capacity
      pub effective : Figures
      pub readable : effective_request fl request ≡ ok effective
      pub passes :
          Passes
            (check_budget (allocated_of fl status) effective (ceilings_of fl status))
            (mode_of fl alloc)

    -- Every way in which a pod is admitted.
    pub record IsAdmissible (allocation_store : Store (Allocation fl.F)) (own : String)
        : Type 0 where
      pub alloc : Allocation fl.F
      pub found : cached_allocation fl allocation_store ≡ some alloc
      pub status : AllocationStatus fl.F
      pub initialised : alloc.status ≡ some status
      pub cleared :
          ((reason : ExemptionReason) × (exemption_of fl request alloc own ≡ some reason))
          ⊎ ((exemption_of fl request alloc own ≡ none) × IsWithinBudget alloc status)

some_eq : {A : Type 0} {a b : A} → ◌≡◌ {A = Option A} (some a) (some b) → a ≡ b
some_eq h = cc

ok-injective : {E A : Type 0} {a b : A} → ◌≡◌ {A = Result E A} (ok a) (ok b) → a ≡ b
ok-injective h = cc

module _ (fl : Float) (kube : AdmissionApi) (request : AdmissionRequest) where
  settle-allowed :
      (status : AllocationStatus fl.F) (budget seconds : ℤ) (mode : EnforcementMode)
      (effective totals : Figures) (v : AdmissionVerdict)
      → ((settle fl kube request status budget seconds mode effective totals v).response.allowed
          ≡ true)
        ↔ Passes fl v mode
  unfolding settle into_response
  settle-allowed status budget seconds mode effective totals admit =
      ((λ _. tt), λ _. kube.admit-allowed request)
  settle-allowed status budget seconds dry_run effective totals (deny vs) =
      ((λ _. refl), λ _. kube.admit-allowed request)
  settle-allowed status budget seconds enforce effective totals (deny vs) = ((λ h. cc), λ h. cc)

  reject-allowed :
      (e : AdmissionError) (meta : RequestMeta) (v : DecisionVerdict) (mode : String)
      → (reject_outcome kube e meta v mode).response.allowed ≡ false
  unfolding reject_outcome
  reject-allowed e meta v mode = refl

  reject-allowed_absurd :
      {P : Type 0} (e : AdmissionError) (meta : RequestMeta) (v : DecisionVerdict) (mode : String)
      → (reject_outcome kube e meta v mode).response.allowed ≡ true
      → P
  reject-allowed_absurd e meta v mode h = cc (reject-allowed e meta v mode)

  module _ (alloc : Allocation fl.F) (status : AllocationStatus fl.F) where
    budget_stage-allowed :
        (freshness : Freshness) (capacity : ClusterCapacityStatus)
        (r : Result AdmissionError Figures)
        → ((budget_stage fl kube request alloc status
              (mode_of fl alloc)
              freshness
              capacity
              r).response.allowed
            ≡ true)
          ↔ ((effective : Figures) × (r ≡ ok effective)
              × Passes fl
                  (check_budget (allocated_of fl status) effective (ceilings_of fl status))
                  (mode_of fl alloc))
    unfolding budget_stage with_context
    budget_stage-allowed freshness capacity (ok effective) = (
      (λ h. (effective, refl, (settle-allowed status _ _ _ effective _ _).0 h)),
      λ (f, same, p). (settle-allowed status _ _ _ effective _ _).1 (rw (ok-injective same) p),
    )
    budget_stage-allowed freshness capacity (err e) =
        (λ h. reject-allowed_absurd e _ error _ h, λ (f, other, p). cc)

    module _ (capacity_store : Store ClusterCapacity) (now : ℤ) (threshold : ℕ) where
      supply_stage_sound :
          (supply : Option ClusterCapacityStatus) (f : Freshness)
          → supply ≡ cached_supply capacity_store
          → (assess_freshness status.last_updated now threshold).stale ≡ false
          → (supply_stage fl kube request alloc status (mode_of fl alloc) f supply).response.allowed
            ≡ true
          → IsWithinBudget fl request capacity_store now threshold alloc status
      unfolding supply_stage
      supply_stage_sound none f e fresh h = reject-allowed_absurd _ _ error _ h
      supply_stage_sound (some capacity) f e fresh h =
          let (effective, readable, passes) = (budget_stage-allowed f capacity _).0 h in
          record {
            fresh = fresh;
            capacity = capacity;
            supply = sym e;
            effective = effective;
            readable = readable;
            passes = passes;
          }

      freshness_stage-allowed :
          ((freshness_stage fl kube request alloc status
              (mode_of fl alloc)
              capacity_store
              threshold
              (assess_freshness status.last_updated now threshold)).response.allowed
            ≡ true)
          ↔ IsWithinBudget fl request capacity_store now threshold alloc status
      unfolding freshness_stage supply_stage
      freshness_stage-allowed =
          elim (Bool-cases (assess_freshness status.last_updated now threshold).stale) [
            | inl old ↦ ((λ h. reject-allowed_absurd _ _ error _ (rw old at h)), λ w. cc (w.fresh))
            | inr fresh ↦ (
              (λ h. supply_stage_sound (cached_supply capacity_store) _ refl fresh (rw fresh at h)),
              λ w.
                  rw (w.fresh, w.supply, supply_stage)
                    ((budget_stage-allowed _ w.capacity _).1 (w.effective, w.readable, w.passes)),
            )
          ]

  module _ (capacity_store : Store ClusterCapacity) (now : ℤ) (threshold : ℕ) (own : String) where
    exemption_stage-allowed :
        (alloc : Allocation fl.F) (status : AllocationStatus fl.F) (x : Option ExemptionReason)
        → ((exemption_stage fl kube request alloc status
              (mode_of fl alloc)
              capacity_store
              now
              threshold
              x).response.allowed
            ≡ true)
          ↔ (((reason : ExemptionReason) × (x ≡ some reason))
              ⊎ ((x ≡ none) × IsWithinBudget fl request capacity_store now threshold alloc status))
    unfolding exemption_stage
    exemption_stage-allowed alloc status (some reason) =
        ((λ _. inl (reason, refl)), λ _. kube.admit-allowed request)
    exemption_stage-allowed alloc status none =
        let (to, from) = freshness_stage-allowed alloc status capacity_store now threshold in
        ((λ h. inr (refl, to h)), λ c. from (elim c [ inl (reason, e) ↦ cc e | inr (e, w) ↦ w ]))

  status_stage-allowed :
      (capacity_store : Store ClusterCapacity) (now : ℤ) (threshold : ℕ) (own : String)
      (alloc : Allocation fl.F) (x : Option (AllocationStatus fl.F))
      → ((status_stage fl kube request alloc capacity_store now threshold own x).response.allowed
          ≡ true)
        ↔ ((status : AllocationStatus fl.F) × (x ≡ some status)
            × (((reason : ExemptionReason) × (exemption_of fl request alloc own ≡ some reason))
                ⊎ ((exemption_of fl request alloc own ≡ none)
                    × IsWithinBudget fl request capacity_store now threshold alloc status)))
  unfolding status_stage
  status_stage-allowed capacity_store now threshold own alloc none =
      (λ h. reject-allowed_absurd _ _ error _ h, λ (s, e, c). cc e)
  status_stage-allowed capacity_store now threshold own alloc (some status) =
      let (to, from) = exemption_stage-allowed capacity_store now threshold own alloc status _ in
      (
        (λ h. (status, refl, to h)),
        λ (s, e, c). let same : status ≡ s = some_eq e in from (rw same c),
      )

-- `evaluate` admits exactly when the cached allocation has a status and the pod is either exempt
-- or within the budget: fresh status, known supply, readable request, and a budget check that
-- admits, or denies in dry-run mode. On every other path the response is a rejection.
pub evaluate-admits_iff :
    (fl : Float) (kube : AdmissionApi) (request : AdmissionRequest)
    (allocation_store : Store (Allocation fl.F)) (capacity_store : Store ClusterCapacity) (now : ℤ)
    (threshold : ℕ) (own : String)
    → ((evaluate fl kube request allocation_store capacity_store now threshold own).response.allowed
        ≡ true)
      ↔ IsAdmissible fl request capacity_store now threshold allocation_store own
unfolding evaluate allocation_stage
evaluate-admits_iff fl kube request allocation_store capacity_store now threshold own = (
  (λ h. elim (Option-cases (cached_allocation fl allocation_store)) [
    | inl missing ↦
        reject-allowed_absurd fl kube request _ _ error _ (rw (missing, allocation_stage) at h)
    | inr (alloc, found) ↦
        let (status, initialised, cleared) =
          (status_stage-allowed fl kube request capacity_store now threshold own alloc
              alloc.status).0
            (rw (found, allocation_stage) at h) in
        record {
          alloc = alloc;
          found = found;
          status = status;
          initialised = initialised;
          cleared = cleared;
        }
  ]),
  λ w.
      rw (w.found, allocation_stage)
        ((status_stage-allowed fl kube request capacity_store now threshold own w.alloc
            w.alloc.status).1
          (w.status, w.initialised, w.cleared)),
)
