-- ===== src/Webhook/Observe.antt =====
-- webhook/handler.rs: the log events and the metric calls of a decision, and the periodic refresh
-- of the gauges.
pub mod Counting
use emergency_ration_webhook.Common.{
  ℕ, String, Option, none, some, List, [], ◌∷◌, ◌++◌, Bool, ◌==ˢ◌, if◌then◌else◌,
}
use emergency_ration_webhook.Common.Int.{ℤ, pos, max_ℤ, leb_ℤ, ◌==ℤ◌}
use emergency_ration_webhook.Common.Result.{and_then}
use emergency_ration_webhook.Common.Float.{Float}
use emergency_ration_webhook.K8s.{Store}
use emergency_ration_webhook.Crd.Allocation.{
  ExemptionReason, reason_str, AllocationStatus, Allocation, cluster_allocation_name,
}
use emergency_ration_webhook.Crd.ClusterCapacity.{ClusterCapacity, ClusterCapacityStatus}
use emergency_ration_webhook.Metrics
use emergency_ration_webhook.Metrics.{
  VerdictLabel, CapacityFigures, MetricCall, observe_duration, set_freshness, record_verdict,
  record_exemption, refresh_capacity,
}
use emergency_ration_webhook.Webhook.Failure.{◌<>◌}
use emergency_ration_webhook.Webhook.Summary
use emergency_ration_webhook.Webhook.Summary.{
  DecisionVerdict, allow, dry_run_deny, exempt, error, ResourceFigures, DecisionSummary,
  assess_freshness,
}
use emergency_ration_webhook.Webhook.Evaluate.{cached_supply, cached_allocation}

pub data Level : Type 0 where
  info warn fault : Level

-- One structured event; each carries the summary that its fields are read from.
pub data LogEvent : Type 0 where
  rejected : (level : Level) (summary : DecisionSummary) → LogEvent
  exempted : (level : Level) (reason : String) (summary : DecisionSummary) → LogEvent
  decided :
      (level : Level) (decision resource_type reason : String) (figures : ResourceFigures)
      (summary : DecisionSummary)
      → LogEvent

-- `exemption_reason.map(as_str).unwrap_or("")`.
abbrev reason_text : Option ExemptionReason → String
reason_text none = ""
reason_text (some r) = reason_str r

abbrev over_reason : String → ResourceFigures → String
over_reason rtype figures = if figures.over then rtype <> "_over_budget" else ""

abbrev denial_events : String → DecisionSummary → List LogEvent
denial_events label summary =
    decided warn label "cpu" (over_reason "cpu" summary.cpu_figures) summary.cpu_figures summary
    ∷ decided warn label "memory" (over_reason "memory" summary.memory_figures)
        summary.memory_figures summary
    ∷ []

abbrev events_of : DecisionVerdict → DecisionSummary → List LogEvent
events_of error summary = rejected fault summary ∷ []
events_of exempt summary = exempted info (reason_text summary.exemption_reason) summary ∷ []
events_of allow summary =
    decided info "allow" "cpu" "" summary.cpu_figures summary
    ∷ decided info "allow" "memory" "" summary.memory_figures summary
    ∷ []
events_of Summary.deny summary = denial_events "deny" summary
events_of dry_run_deny summary = denial_events "dry_run_deny" summary

unfoldable pub emit_log : DecisionSummary → List LogEvent
emit_log summary = events_of summary.verdict summary

-- The label of a resource's verdict counter.
abbrev pub label_of : DecisionVerdict → Bool → VerdictLabel
label_of error over = Metrics.error
label_of dry_run_deny over = Metrics.dry_run_deny
label_of v over = if over then Metrics.deny else Metrics.allow

module _ (fl : Float) where
  unfoldable pub ratio : ℤ → ℤ → fl.F
  ratio allocated ceiling =
      if ceiling ==ℤ pos 0 then fl.of_ℤ (pos 0) else fl.div (fl.of_ℤ allocated) (fl.of_ℤ ceiling)

  abbrev to_capacity_figures : ResourceFigures → CapacityFigures fl.F
  to_capacity_figures figures = record {
    allocated = figures.allocated;
    ceiling = figures.ceiling;
    total_allocatable = figures.total_allocatable;
    ratio = ratio figures.allocated figures.ceiling;
  }

  -- `latency_ms as f64 / 1000.0`.
  abbrev latency_seconds : DecisionSummary → fl.F
  latency_seconds summary = fl.div (fl.of_ℤ summary.latency_ms) (fl.of_ℤ (pos 1000))

  abbrev exemption_calls : Option ExemptionReason → List (MetricCall fl.F)
  exemption_calls none = []
  exemption_calls (some reason) = record_exemption (reason_str reason)

  abbrev capacity_calls : DecisionVerdict → DecisionSummary → List (MetricCall fl.F)
  capacity_calls error summary = []
  capacity_calls v summary =
      refresh_capacity (to_capacity_figures summary.cpu_figures)
        (to_capacity_figures summary.memory_figures)

  abbrev pub verdict_calls : DecisionVerdict → DecisionSummary → List (MetricCall fl.F)
  verdict_calls exempt summary =
      exemption_calls summary.exemption_reason ++ observe_duration (latency_seconds summary) ∷ []
  verdict_calls v summary =
      record_verdict Metrics.cpu (label_of v (summary.cpu_figures).over)
      ++ record_verdict Metrics.memory (label_of v (summary.memory_figures).over)
      ++ observe_duration (latency_seconds summary) ∷ []
      ++ (if leb_ℤ (pos 0) summary.freshness_seconds
          then set_freshness summary.freshness_seconds ∷ []
          else [])
      ++ capacity_calls v summary

  unfoldable pub record_metrics : DecisionSummary → List (MetricCall fl.F)
  record_metrics summary = verdict_calls summary.verdict summary

  -- The totals of the cached supply, or zeros.
  abbrev pub totals_of : Option ClusterCapacityStatus → ℤ × ℤ
  totals_of none = (pos 0, pos 0)
  totals_of (some s) = (s.total_allocatable_cpu_milli, s.total_allocatable_memory_bytes)

  abbrev gauge_calls :
      Option (AllocationStatus fl.F) → Option ClusterCapacityStatus → ℤ → List (MetricCall fl.F)
  gauge_calls none supply now = []
  gauge_calls (some status) supply now =
      let totals = totals_of supply in
      set_freshness (max_ℤ (assess_freshness status.last_updated now 0).seconds (pos 0))
      ∷ refresh_capacity
          (record {
            allocated = status.allocated_cpu_milli;
            ceiling = status.ceiling_cpu_milli;
            total_allocatable = totals.0;
            ratio = ratio status.allocated_cpu_milli status.ceiling_cpu_milli;
          })
          (record {
            allocated = status.allocated_memory_bytes;
            ceiling = status.ceiling_memory_bytes;
            total_allocatable = totals.1;
            ratio = ratio status.allocated_memory_bytes status.ceiling_memory_bytes;
          })

  unfoldable pub refresh_gauges :
      Store (Allocation fl.F) → Store ClusterCapacity → ℤ → List (MetricCall fl.F)
  refresh_gauges allocation_store capacity_store now =
      gauge_calls (and_then (cached_allocation fl allocation_store) (λ a. a.status))
        (cached_supply capacity_store) now
