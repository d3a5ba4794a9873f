-- ===== src/Webhook/Evaluate/Verdicts.antt =====
-- How the response of webhook/handler.rs agrees with the verdict of its summary.
use emergency_ration_webhook.Common.{
  ℕ, String, Option, none, List, Bool, true, false, ◌≡◌, ◌≢◌, refl,
}
use emergency_ration_webhook.Common.Int.{ℤ}
use emergency_ration_webhook.Common.Float.{Float}
use emergency_ration_webhook.K8s.{AdmissionRequest, AdmissionApi, Store}
use emergency_ration_webhook.Crd.Allocation.{
  EnforcementMode, enforce, dry_run, AllocationStatus, Allocation,
}
use emergency_ration_webhook.Crd.ClusterCapacity.{ClusterCapacity}
use emergency_ration_webhook.Webhook.Failure.{AdmissionError, into_response}
use emergency_ration_webhook.Webhook.Admission.{Figures, AdmissionVerdict, admit, deny}
use emergency_ration_webhook.Webhook.Summary.{
  Freshness, assess_freshness, DecisionVerdict, allow, dry_run_deny, exempt, error, DecisionOutcome,
  with_context, reject_outcome, decision, exempt_summary,
}
use emergency_ration_webhook.Webhook.Summary
use emergency_ration_webhook.Webhook.Evaluate.Outcomes.{
  Outcome, rejection, unreadable, exemption, settled, evaluate-Outcome,
}
use emergency_ration_webhook.Webhook.Evaluate.{reject, settle, evaluate}

-- Whether a verdict lets the pod in.
abbrev pub lets_in : DecisionVerdict → Bool
lets_in allow = true
lets_in Summary.deny = false
lets_in dry_run_deny = true
lets_in exempt = true
lets_in error = false

-- A warning goes out only with a dry-run denial.
abbrev pub WarnsOnly : DecisionVerdict → Option (List String) → Type 0
WarnsOnly dry_run_deny ws = ws ≢ none
WarnsOnly allow ws = ws ≡ none
WarnsOnly Summary.deny ws = ws ≡ none
WarnsOnly exempt ws = ws ≡ none
WarnsOnly error ws = ws ≡ none

module _ (kube : AdmissionApi) (request : AdmissionRequest) where
  -- The response echoes the uid of the request, is allowed exactly if the verdict lets the pod in,
  -- and warns exactly on a dry-run denial.
  pub record IsCoherent (o : DecisionOutcome) : Type 0 where
    pub echoes : o.response.uid ≡ request.uid
    pub agrees : o.response.allowed ≡ lets_in o.summary.verdict
    pub warns : WarnsOnly o.summary.verdict o.response.warnings

module _ (fl : Float) (kube : AdmissionApi) (request : AdmissionRequest) where
  reject-IsCoherent :
      (e : AdmissionError) (mode : EnforcementMode)
      → IsCoherent kube request (reject fl kube e request mode)
  unfolding reject_outcome
  reject-IsCoherent e mode = record {
    echoes = refl;
    agrees = refl;
    warns = kube.invalid-warnings _;
  }

  settle-IsCoherent :
      (status : AllocationStatus fl.F) (budget seconds : ℤ) (mode : EnforcementMode)
      (effective totals : Figures) (v : AdmissionVerdict)
      → IsCoherent kube request
          (settle fl kube request status budget seconds mode effective totals v)
  unfolding settle decision into_response
  settle-IsCoherent status budget seconds mode effective totals admit = record {
    echoes = kube.admit-uid request;
    agrees = kube.admit-allowed request;
    warns = kube.admit-warnings request;
  }
  settle-IsCoherent status budget seconds dry_run effective totals (deny vs) = record {
    echoes = kube.admit-uid request;
    agrees = kube.admit-allowed request;
    warns = λ h. cc;
  }
  settle-IsCoherent status budget seconds enforce effective totals (deny vs) = record {
    echoes = refl;
    agrees = refl;
    warns = kube.invalid-warnings _;
  }

  Outcome-IsCoherent : (o : DecisionOutcome) → Outcome fl kube request o → IsCoherent kube request o
  unfolding with_context exempt_summary
  Outcome-IsCoherent o (rejection e mode) = reject-IsCoherent e mode
  Outcome-IsCoherent o (unreadable e mode seconds budget totals) =
      let c = reject-IsCoherent e mode in
      record { echoes = c.echoes; agrees = c.agrees; warns = c.warns }
  Outcome-IsCoherent o (exemption reason mode o' e) = rw e (record {
    echoes = kube.admit-uid request;
    agrees = kube.admit-allowed request;
    warns = kube.admit-warnings request;
  })
  Outcome-IsCoherent o (settled status budget seconds mode effective totals v e) =
      settle-IsCoherent status budget seconds mode effective totals v

-- On every path of `evaluate` the response echoes the uid of the request, is allowed exactly if the
-- verdict of the summary is allow, dry-run deny or exempt, and carries warnings exactly if the
-- verdict is dry-run deny.
pub evaluate-IsCoherent :
    (fl : Float) (kube : AdmissionApi) (request : AdmissionRequest)
    (allocation_store : Store (Allocation fl.F)) (capacity_store : Store ClusterCapacity) (now : ℤ)
    (threshold : ℕ) (own : String)
    → IsCoherent kube request
        (evaluate fl kube request allocation_store capacity_store now threshold own)
evaluate-IsCoherent fl kube request allocation_store capacity_store now threshold own =
    Outcome-IsCoherent fl kube request _
      (evaluate-Outcome fl kube request allocation_store capacity_store now threshold own)
