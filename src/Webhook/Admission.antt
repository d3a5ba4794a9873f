-- ===== src/Webhook/Admission.antt =====
-- webhook/admission.rs: the ceiling and the budget check. Figures are (milli-CPUs, bytes).
pub mod Budget
pub mod Ceiling
use emergency_ration_webhook.Common.{List, [], ◌∷◌, ◌++◌, Bool, true, false, if◌then◌else◌}
use emergency_ration_webhook.Common.Int.{ℤ, pos, ◌*ℤ◌, tdiv, ltb_ℤ, min_ℤ}
use emergency_ration_webhook.Common.Word.{i64_max, saturating_add, clamp}
use emergency_ration_webhook.Webhook.Failure.{ResourceType, cpu, memory, BudgetViolation}

abbrev pub Figures : Type 0
Figures = ℤ × ℤ

pub data AdmissionVerdict : Type 0 where
  admit : AdmissionVerdict
  deny : List BudgetViolation → AdmissionVerdict

abbrev pub is_admit : AdmissionVerdict → Bool
is_admit admit = true
is_admit (deny vs) = false

-- The product of an i64 and a percentage fits the i128 of the source.
unfoldable pub ceiling_single : ℤ → ℤ → ℤ
ceiling_single total budget_percent =
    min_ℤ (tdiv (total *ℤ clamp (pos 0) (pos 100) budget_percent) 100) i64_max

unfoldable pub ceiling_per_resource : Figures → ℤ × ℤ → Figures
ceiling_per_resource total budgets =
    (ceiling_single total.0 budgets.0, ceiling_single total.1 budgets.1)

unfoldable pub ceiling : Figures → ℤ → Figures
unfolding ceiling_per_resource
ceiling total_allocatable budget_percent =
    ceiling_per_resource total_allocatable (budget_percent, budget_percent)

abbrev pub violation : ResourceType → ℤ → ℤ → ℤ → BudgetViolation
violation resource allocated requested ceiling = record {
  resource = resource;
  allocated = allocated;
  requested = requested;
  projected = saturating_add allocated requested;
  ceiling = ceiling;
}

-- The violation of one resource, if its projection exceeds its ceiling.
unfoldable pub violation_of : ResourceType → ℤ → ℤ → ℤ → List BudgetViolation
violation_of resource allocated requested ceiling =
    if ltb_ℤ ceiling (saturating_add allocated requested)
    then violation resource allocated requested ceiling ∷ []
    else []

abbrev verdict_of : List BudgetViolation → AdmissionVerdict
verdict_of [] = admit
verdict_of (v ∷ vs) = deny (v ∷ vs)

unfoldable pub check_budget : Figures → Figures → Figures → AdmissionVerdict
unfolding violation_of
check_budget allocated pod_request ceiling = verdict_of (
    violation_of cpu allocated.0 pod_request.0 ceiling.0
    ++ violation_of memory allocated.1 pod_request.1 ceiling.1)
