-- ===== src/Tests/Budget.antt =====
-- Runs of the budget arithmetic: webhook/admission.rs, resources/quantity.rs, crd/allocation.rs.
use emergency_ration_webhook.Common.{
  String, none, some, List, [], ◌∷◌, true, All, ◌≡◌, ◌↔◌, refl, arith,
}
use emergency_ration_webhook.Common.Int.{pos, ◌+ℤ◌, ◌*ℤ◌, ◌≤ℤ◌, max_ℤ}
use emergency_ration_webhook.Common.Word.{saturating_add, saturate, wrap64}
use emergency_ration_webhook.Common.Result.{ok}
use emergency_ration_webhook.K8s.{get, Container, PodSpec}
use emergency_ration_webhook.Crd.Allocation.{
  namespace, priority_class, webhook_namespace, check_exemption,
}
use emergency_ration_webhook.Crd.Allocation.Exemption.{
  InOwnNamespace, InExcludedNamespace, HasExcludedClass, check_exemption-exact,
}
use emergency_ration_webhook.Resources.Quantity.{
  parse_memory, parse_cpu, parse_number, to_i64, split_suffix, parse_integer,
}
use emergency_ration_webhook.Resources.PodRequests.{
  quantity_of, container_requests, extract_pod_requests,
}
use emergency_ration_webhook.Resources.PodRequests.Sums.{
  Requests, extract_pod_requests-exact, extract_pod_requests-overflow,
}
use emergency_ration_webhook.Webhook.Failure.{ResourceType, cpu, BudgetViolation}
use emergency_ration_webhook.Webhook.Admission.{Figures, admit, deny, violation_of, check_budget}
use emergency_ration_webhook.Webhook.Admission.Budget.{
  IsViolation, names, Exceeds, check_budget-admit_iff, check_budget-deny_exact,
}
use emergency_ration_webhook.Tests.Samples.{whole, budget_spec}

abbrev used : Figures
used = (pos 500, pos 2000)

abbrev asked : Figures
asked = (pos 400, pos 1000)

abbrev limits : Figures
limits = (pos 800, pos 8000)

check_budget-admit_iff_example :
    (check_budget used asked limits ≡ admit)
    ↔ ((pos 500 +ℤ pos 400 ≤ℤ pos 800) × (pos 2000 +ℤ pos 1000 ≤ℤ pos 8000))
check_budget-admit_iff_example =
    check_budget-admit_iff used asked limits (ground arith) (ground arith) (omega arith)
      (omega arith)

abbrev over_cpu : List BudgetViolation
over_cpu =
    record {
      resource = cpu;
      allocated = pos 500;
      requested = pos 400;
      projected = pos 900;
      ceiling = pos 800;
    }
    ∷ []

denied_run : check_budget used asked limits ≡ deny over_cpu
unfolding check_budget violation_of saturating_add saturate ◌+ℤ◌
denied_run = refl

check_budget-deny_exact_example :
    All (IsViolation used asked limits) over_cpu
    × ((k : ResourceType) → (names k over_cpu ≡ true) ↔ Exceeds k used asked limits)
check_budget-deny_exact_example = check_budget-deny_exact used asked limits over_cpu denied_run

abbrev container_of : String → String → Container
container_of c m = record {
  resources = some (record { requests = some (("cpu", c) ∷ ("memory", m) ∷ []); limits = none });
}

abbrev two_containers : PodSpec
two_containers = record {
  containers = container_of "100m" "4096" ∷ container_of "2" "1Ki" ∷ [];
  init_containers = some (container_of "5" "10" ∷ []);
  priority_class_name = none;
}

abbrev huge : PodSpec
huge = record {
  containers = container_of "1" "9223372036854775807" ∷ container_of "1" "9223372036854775807" ∷ [];
  init_containers = none;
  priority_class_name = none;
}

regular-Requests : Requests whole two_containers.containers ((100, 4096) ∷ (2000, 1024) ∷ [])
unfolding container_requests quantity_of get parse_cpu parse_memory parse_number to_i64 split_suffix
    parse_integer ◌*ℤ◌ saturate
regular-Requests = (refl, (refl, tt))

init-Requests : Requests whole (container_of "5" "10" ∷ []) ((5000, 10) ∷ [])
unfolding container_requests quantity_of get parse_cpu parse_memory parse_number to_i64 split_suffix
    parse_integer ◌*ℤ◌ saturate
init-Requests = (refl, tt)

extract_pod_requests-exact_example :
    extract_pod_requests whole two_containers ≡ ok (pos 5000, pos 5120)
extract_pod_requests-exact_example =
    extract_pod_requests-exact whole two_containers ((100, 4096) ∷ (2000, 1024) ∷ [])
      ((5000, 10) ∷ []) regular-Requests init-Requests (omega arith) (omega arith)

huge-Requests :
    Requests whole huge.containers ((1000, 9223372036854775807) ∷ (1000, 9223372036854775807) ∷ [])
unfolding container_requests quantity_of get parse_cpu parse_memory parse_number to_i64 split_suffix
    parse_integer ◌*ℤ◌ saturate
huge-Requests = (refl, (refl, tt))

extract_pod_requests-overflow_example :
    extract_pod_requests whole huge ≡ ok (max_ℤ (wrap64 (pos 2000)) (pos 0), pos 0)
extract_pod_requests-overflow_example =
    extract_pod_requests-overflow whole huge
      ((1000, 9223372036854775807) ∷ (1000, 9223372036854775807) ∷ []) [] huge-Requests tt
      (omega arith) (omega arith) refl

check_exemption-exact_example :
    let exemption = check_exemption (some "kube-system") (some "critical") budget_spec "erw" in
    ((exemption ≡ some webhook_namespace) ↔ InOwnNamespace (some "kube-system") "erw")
    × ((exemption ≡ some namespace) ↔ (
        ¬ InOwnNamespace (some "kube-system") "erw"
        × InExcludedNamespace (some "kube-system") budget_spec))
    × ((exemption ≡ some priority_class) ↔ (
        ¬ InOwnNamespace (some "kube-system") "erw"
        × (¬ InExcludedNamespace (some "kube-system") budget_spec)
        × HasExcludedClass (some "critical") budget_spec))
    × ((exemption ≡ none) ↔ (
        ¬ InOwnNamespace (some "kube-system") "erw"
        × (¬ InExcludedNamespace (some "kube-system") budget_spec)
        × (¬ HasExcludedClass (some "critical") budget_spec)))
check_exemption-exact_example =
    check_exemption-exact (some "kube-system") (some "critical") budget_spec "erw"
