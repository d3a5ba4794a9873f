-- ===== src/Webhook/Observe/Counting.antt =====
-- How the metric calls of webhook/handler.rs count a decision.
use emergency_ration_webhook.Common.{
  ℕ, suc, ◌+◌, ◌≤◌, String, none, List, [], ◌∷◌, Bool, true, false, ◌≡◌, ◌≢◌, ◌⊎◌, inl, inr, refl,
  sym, ap, ◌==ˢ◌, arith, Bool-cases, Option-cases, if◌then◌else◌,
}
use emergency_ration_webhook.Common.Int.{ℤ, pos, leb_ℤ}
use emergency_ration_webhook.Common.Float.{Float}
use emergency_ration_webhook.K8s.{AdmissionRequest, AdmissionApi, Store}
use emergency_ration_webhook.Crd.Allocation.{Allocation, enforce, dry_run}
use emergency_ration_webhook.Crd.ClusterCapacity.{ClusterCapacity}
use emergency_ration_webhook.Metrics.{
  verdict_str, MetricCall, inc_verdict, inc_exemption, refresh_capacity,
}
use emergency_ration_webhook.Webhook.Admission.{admit, deny}
use emergency_ration_webhook.Webhook.Admission.Budget.{check_budget-deny_names}
use emergency_ration_webhook.Webhook.Summary
use emergency_ration_webhook.Webhook.Summary.{
  DecisionVerdict, allow, dry_run_deny, exempt, error, DecisionSummary, DecisionOutcome,
  with_context, exempt_summary, reject_outcome, decision, mark_over, within,
}
use emergency_ration_webhook.Webhook.Evaluate.{evaluate, settle}
use emergency_ration_webhook.Webhook.Evaluate.Outcomes.{
  Outcome, rejection, unreadable, exemption, settled, evaluate-Outcome,
}
use emergency_ration_webhook.Webhook.Observe.{label_of, verdict_calls, record_metrics}

module _ {F : Type 0} where
  -- The increments of a verdict counter of one resource, under whatever verdict.
  abbrev pub verdict_count : String → List (MetricCall F) → ℕ
  verdict_count r [] = 0
  verdict_count r (inc_verdict resource verdict ∷ calls) =
      let rest = verdict_count r calls in if resource ==ˢ r then suc rest else rest
  verdict_count r (call ∷ calls) = verdict_count r calls

  -- The increments of the exemption counter, under whatever reason.
  abbrev pub exemption_count : List (MetricCall F) → ℕ
  exemption_count [] = 0
  exemption_count (inc_exemption reason ∷ calls) = suc (exemption_count calls)
  exemption_count (call ∷ calls) = exemption_count calls

  -- The increments of a counter with exactly these labels.
  abbrev pub label_count : String → String → List (MetricCall F) → ℕ
  label_count r v [] = 0
  label_count r v (inc_verdict resource verdict ∷ calls) =
      let rest = label_count r v calls in
      if resource ==ˢ r then (if verdict ==ˢ v then suc rest else rest) else rest
  label_count r v (call ∷ calls) = label_count r v calls

-- An exemption is counted once, on its own counter; any other decision once for each resource.
abbrev pub IsCountedOnce : {F : Type 0} → DecisionVerdict → List (MetricCall F) → Type 0
IsCountedOnce exempt calls =
    (exemption_count calls ≡ 1)
    × (verdict_count "cpu" calls ≡ 0)
    × (verdict_count "memory" calls ≡ 0)
IsCountedOnce v calls =
    (exemption_count calls ≡ 0)
    × (verdict_count "cpu" calls ≡ 1)
    × (verdict_count "memory" calls ≡ 1)

-- A summary with the verdict of exemption names its reason.
abbrev pub HasReason : DecisionSummary → Type 0
HasReason s = s.verdict ≡ exempt → s.exemption_reason ≢ none

module _ (fl : Float) where
  verdict_calls-IsCountedOnce :
      (v : DecisionVerdict) (s : DecisionSummary)
      → (v ≡ exempt → s.exemption_reason ≢ none)
      → IsCountedOnce v (verdict_calls fl v s)
  unfolding refresh_capacity
  verdict_calls-IsCountedOnce exempt s h = elim (Option-cases s.exemption_reason) [
    | inl missing ↦ absurd (h refl missing)
    | inr (r, e) ↦ rw e (refl, refl, refl)
  ]
  verdict_calls-IsCountedOnce v s h = elim (Bool-cases (leb_ℤ (pos 0) s.freshness_seconds)) [
    | inl p ↦ rw p (refl, refl, refl)
    | inr p ↦ rw p (refl, refl, refl)
  ]

  Outcome-HasReason :
      (kube : AdmissionApi) (request : AdmissionRequest) (o : DecisionOutcome)
      → Outcome fl kube request o
      → HasReason o.summary
  unfolding with_context exempt_summary reject_outcome settle decision
  Outcome-HasReason kube request o (rejection e mode) = λ h. cc
  Outcome-HasReason kube request o (unreadable e mode seconds budget totals) = λ h. cc
  Outcome-HasReason kube request o (exemption reason mode o' e) = rw e (λ _ h. cc)
  Outcome-HasReason kube request o (settled status budget seconds mode effective totals admit e) =
      λ h. cc
  Outcome-HasReason kube request o
        (settled status budget seconds enforce effective totals (deny vs) e) =
      λ h. cc
  Outcome-HasReason kube request o
        (settled status budget seconds dry_run effective totals (deny vs) e) =
      λ h. cc

-- The metric calls of a decision of `evaluate` count it once: an exemption once on the exemption
-- counter and on no verdict counter, any other decision once on the verdict counter of CPU, once
-- on that of memory, and on no exemption counter.
pub evaluate-IsCountedOnce :
    (fl : Float) (kube : AdmissionApi) (request : AdmissionRequest)
    (allocation_store : Store (Allocation fl.F)) (capacity_store : Store ClusterCapacity) (now : ℤ)
    (threshold : ℕ) (own : String)
    → let s =
        (evaluate fl kube request allocation_store capacity_store now threshold own).summary in
      IsCountedOnce s.verdict (record_metrics fl s)
unfolding record_metrics
evaluate-IsCountedOnce fl kube request allocation_store capacity_store now threshold own =
    let o = evaluate fl kube request allocation_store capacity_store now threshold own in
    verdict_calls-IsCountedOnce fl o.summary.verdict o.summary (
      Outcome-HasReason fl kube request o
        (evaluate-Outcome fl kube request allocation_store capacity_store now threshold own))

abbrev counts_deny : Bool → ℕ
counts_deny over = if verdict_str (label_of Summary.deny over) ==ˢ "deny" then 1 else 0

deny_labels : (c m : Bool) → (c ≡ true) ⊎ (m ≡ true) → 1 ≤ counts_deny c + counts_deny m
deny_labels true true h = omega arith
deny_labels true false h = omega arith
deny_labels false true h = omega arith
deny_labels false false h = ground arith

module _ (fl : Float) where
  verdict_calls-deny :
      (s : DecisionSummary)
      → ((s.cpu_figures).over ≡ true) ⊎ ((s.memory_figures).over ≡ true)
      → 1
        ≤ label_count "cpu" "deny" (verdict_calls fl Summary.deny s)
          + label_count "memory" "deny" (verdict_calls fl Summary.deny s)
  unfolding refresh_capacity
  verdict_calls-deny s h = elim (Bool-cases (leb_ℤ (pos 0) s.freshness_seconds)) [
    | inl p ↦ rw p (deny_labels (s.cpu_figures).over (s.memory_figures).over h)
    | inr p ↦ rw p (deny_labels (s.cpu_figures).over (s.memory_figures).over h)
  ]

  Outcome-counts_denial :
      (kube : AdmissionApi) (request : AdmissionRequest) (o : DecisionOutcome)
      → Outcome fl kube request o
      → o.summary.verdict ≡ Summary.deny
      → ((o.summary.cpu_figures).over ≡ true) ⊎ ((o.summary.memory_figures).over ≡ true)
  unfolding with_context exempt_summary reject_outcome settle decision mark_over within
  Outcome-counts_denial kube request o (rejection e mode) h = cc
  Outcome-counts_denial kube request o (unreadable e mode seconds budget totals) h = cc
  Outcome-counts_denial kube request o (exemption reason mode o' e) h =
      cc (ap (λ (x : DecisionOutcome). x.summary.verdict) e)
  Outcome-counts_denial kube request o (settled status budget seconds mode effective totals admit e)
        h =
      cc
  Outcome-counts_denial kube request o
        (settled status budget seconds dry_run effective totals (deny vs) e) h =
      cc
  Outcome-counts_denial kube request o
        (settled status budget seconds enforce effective totals (deny vs) e) h =
      check_budget-deny_names _ _ _ vs (sym e)

  by_verdict :
      (s : DecisionSummary) (v : DecisionVerdict)
      → v ≡ Summary.deny
      → ((s.cpu_figures).over ≡ true) ⊎ ((s.memory_figures).over ≡ true)
      → 1
        ≤ label_count "cpu" "deny" (verdict_calls fl v s)
          + label_count "memory" "deny" (verdict_calls fl v s)
  by_verdict s v e h = rw e (verdict_calls-deny s h)

-- A decision that `evaluate` denies counts at least one resource under the label deny.
evaluate-counts_denial :
    (fl : Float) (kube : AdmissionApi) (request : AdmissionRequest)
    (allocation_store : Store (Allocation fl.F)) (capacity_store : Store ClusterCapacity) (now : ℤ)
    (threshold : ℕ) (own : String)
    → let s =
        (evaluate fl kube request allocation_store capacity_store now threshold own).summary in
      s.verdict ≡ Summary.deny
      → 1
        ≤ label_count "cpu" "deny" (record_metrics fl s)
          + label_count "memory" "deny" (record_metrics fl s)
unfolding record_metrics
evaluate-counts_denial fl kube request allocation_store capacity_store now threshold own h =
    let o = evaluate fl kube request allocation_store capacity_store now threshold own in
    by_verdict fl o.summary o.summary.verdict h (
      Outcome-counts_denial fl kube request o
        (evaluate-Outcome fl kube request allocation_store capacity_store now threshold own) h)
