-- ===== src/Webhook/Summary.antt =====
-- webhook/handler.rs: the freshness, the request's metadata, the figures and the summary of a
-- decision.
use emergency_ration_webhook.Common.{
  ℕ, String, Option, none, some, List, Bool, true, false, any, ltb,
}
use emergency_ration_webhook.Common.Int.{ℤ, pos, negsuc, pos_part, max_ℤ}
use emergency_ration_webhook.Common.Word.{saturating_add, saturating_sub}
use emergency_ration_webhook.Common.Result.{unwrap_or}
use emergency_ration_webhook.K8s.{
  Operation, create, update, delete, connect, AdmissionRequest, AdmissionResponse, AdmissionApi,
}
use emergency_ration_webhook.Crd.Allocation.{EnforcementMode, as_log_str, ExemptionReason}
use emergency_ration_webhook.TimeUtil.{parse_rfc3339}
use emergency_ration_webhook.Webhook.Failure.{
  ◌<>◌, ResourceType, cpu, memory, BudgetViolation, AdmissionError, slug, into_response,
}
use emergency_ration_webhook.Webhook.Admission.{Figures}

pub record Freshness : Type 0 where
  pub seconds : ℤ
  pub age_secs : ℕ
  pub stale : Bool

-- The age is never negative, so it is a number.
unfoldable pub assess_freshness : String → ℤ → ℕ → Freshness
assess_freshness last_updated now threshold_secs = elim (parse_rfc3339 last_updated) [
  | none ↦ record { seconds = negsuc 0; age_secs = 0; stale = true }
  | some refreshed ↦
      let age = pos_part (max_ℤ (saturating_sub now refreshed) (pos 0)) in
      record { seconds = pos age; age_secs = age; stale = ltb threshold_secs age }
]

pub data DecisionVerdict : Type 0 where
  allow deny dry_run_deny exempt error : DecisionVerdict

pub record ResourceFigures : Type 0 where
  pub resource : ResourceType
  pub allocated : ℤ
  pub requested : ℤ
  pub projected : ℤ
  pub ceiling : ℤ
  pub total_allocatable : ℤ
  pub over : Bool

-- `ResourceFigures::default()`.
abbrev pub default_figures : ResourceFigures
default_figures = record {
  resource = cpu;
  allocated = pos 0;
  requested = pos 0;
  projected = pos 0;
  ceiling = pos 0;
  total_allocatable = pos 0;
  over = false;
}

abbrev pub of_resource : ResourceType → Figures → ℤ
of_resource cpu f = f.0
of_resource memory f = f.1

unfoldable pub within : ResourceType → Figures → Figures → Figures → ℤ → ResourceFigures
within resource allocated requested ceiling total_allocatable = record {
  resource = resource;
  allocated = of_resource resource allocated;
  requested = of_resource resource requested;
  projected = saturating_add (of_resource resource allocated) (of_resource resource requested);
  ceiling = of_resource resource ceiling;
  total_allocatable = total_allocatable;
  over = false;
}

-- `==` on `ResourceType`.
abbrev pub same_resource : ResourceType → ResourceType → Bool
same_resource cpu cpu = true
same_resource memory memory = true
same_resource _ _ = false

unfoldable pub mark_over : List BudgetViolation → ResourceFigures → ResourceFigures
mark_over violations figures = record figures {
  over = any (λ v. same_resource v.resource figures.resource) violations;
}

pub record DecisionSummary : Type 0 where
  pub workload : String
  pub operation : String
  pub verdict : DecisionVerdict
  pub reason : String
  pub budget_percent : ℤ
  pub effective_cpu_budget_percent : ℤ
  pub effective_memory_budget_percent : ℤ
  pub freshness_seconds : ℤ
  pub latency_ms : ℤ
  pub enforcement_mode : String
  pub exemption_reason : Option ExemptionReason
  pub cpu_figures : ResourceFigures
  pub memory_figures : ResourceFigures

pub record DecisionOutcome : Type 0 where
  pub response : AdmissionResponse
  pub summary : DecisionSummary

abbrev pub operation_of : Operation → String
operation_of create = "CREATE"
operation_of update = "UPDATE"
operation_of delete = "DELETE"
operation_of connect = "CONNECT"

abbrev pub workload_of : AdmissionRequest → String
workload_of request = unwrap_or request.namespace "" <> "/" <> request.name

pub record RequestMeta : Type 0 where
  pub uid : String
  pub namespace : String
  pub name : String
  pub operation : String

abbrev pub request_meta_of : AdmissionRequest → RequestMeta
request_meta_of request = record {
  uid = request.uid;
  namespace = unwrap_or request.namespace "";
  name = request.name;
  operation = operation_of request.operation;
}

-- `DecisionSummary::decision`.
unfoldable pub decision :
    AdmissionRequest
    → ℤ
    → ℤ × ℤ
    → ℤ
    → EnforcementMode
    → ResourceFigures
    → ResourceFigures
    → DecisionSummary
decision request budget_percent effective_budgets freshness_seconds mode cpu_figures
      memory_figures =
    record {
      workload = workload_of request;
      operation = operation_of request.operation;
      verdict = allow;
      reason = "";
      budget_percent = budget_percent;
      effective_cpu_budget_percent = effective_budgets.0;
      effective_memory_budget_percent = effective_budgets.1;
      freshness_seconds = freshness_seconds;
      latency_ms = pos 0;
      enforcement_mode = as_log_str mode;
      exemption_reason = none;
      cpu_figures = cpu_figures;
      memory_figures = memory_figures;
    }

-- `DecisionSummary::exempt`.
unfoldable pub exempt_summary :
    AdmissionRequest → ExemptionReason → EnforcementMode → DecisionSummary
exempt_summary request reason mode = record {
  workload = workload_of request;
  operation = operation_of request.operation;
  verdict = exempt;
  reason = "";
  budget_percent = negsuc 0;
  effective_cpu_budget_percent = negsuc 0;
  effective_memory_budget_percent = negsuc 0;
  freshness_seconds = negsuc 0;
  latency_ms = pos 0;
  enforcement_mode = as_log_str mode;
  exemption_reason = some reason;
  cpu_figures = default_figures;
  memory_figures = record default_figures { resource = memory };
}

-- `with_freshness`, `with_budget` and `with_totals`, in that order.
unfoldable pub with_context : ℤ → ℤ → Figures → DecisionOutcome → DecisionOutcome
with_context seconds budget_percent totals outcome =
    let s = outcome.summary in
    record outcome {
      summary = record s {
        freshness_seconds = seconds;
        budget_percent = budget_percent;
        cpu_figures = record (s.cpu_figures) { total_allocatable = totals.0 };
        memory_figures = record (s.memory_figures) { total_allocatable = totals.1 };
      };
    }

unfoldable pub reject_outcome :
    AdmissionApi → AdmissionError → RequestMeta → DecisionVerdict → String → DecisionOutcome
unfolding into_response
reject_outcome kube e meta verdict mode = record {
  response = into_response kube e meta.uid;
  summary = record {
    workload = meta.namespace <> "/" <> meta.name;
    operation = meta.operation;
    verdict = verdict;
    reason = slug e;
    budget_percent = negsuc 0;
    effective_cpu_budget_percent = negsuc 0;
    effective_memory_budget_percent = negsuc 0;
    freshness_seconds = negsuc 0;
    latency_ms = pos 0;
    enforcement_mode = mode;
    exemption_reason = none;
    cpu_figures = default_figures;
    memory_figures = default_figures;
  };
}
