-- ===== src/Tests/Enforced.antt =====
-- Runs of the enforcement scenarios.
use emergency_ration_webhook.Common.{
  ℕ, none, some, List, [], ◌∷◌, ◌+◌, ◌++◌, true, ◌≡◌, ◌↔◌, refl, arith, leb, if◌then◌else◌,
}
use emergency_ration_webhook.Common.Lists.{All}
use emergency_ration_webhook.Common.Int.{ℤ, pos}
use emergency_ration_webhook.Common.Result.{Result, ok, err}
use emergency_ration_webhook.Common.Text.{codes, Text, lines, contains, parse_unsigned, show_ℕ}
use emergency_ration_webhook.Crd.Allocation.{EnforcementMode, enforce, dry_run}
use emergency_ration_webhook.Webhook.Failure.{cpu, memory, over_budget, message}
use emergency_ration_webhook.Webhook.Admission.{violation}
use emergency_ration_webhook.Webhook.Admission.Budget.{Exceeds}
use emergency_ration_webhook.Controllers.Supply.{
  sum_node_allocatable, capacity_status, effective_selectors,
}
use emergency_ration_webhook.Controllers.Supply.Breakdown.{is_included}
use emergency_ration_webhook.Verify.Scenarios.{ScenarioResult}
use emergency_ration_webhook.Verify.Degradation.{SubmitError, transport}
use emergency_ration_webhook.Verify.Enforcement.{
  Cluster, is_denied_403, patch_enforcement, or_fail, create_pod, delete_pod,
}
use emergency_ration_webhook.Verify.Enforcement.Scenarios.{
  s6, is_memory_only, dry_run_deny_count, proxy_get, sum_samples, last_token, probe_dry_run,
}
use emergency_ration_webhook.Verify.Enforcement.Readings.{matches_nodes}
use emergency_ration_webhook.Verify.Enforcement.Sequence.{run}
use emergency_ration_webhook.Verify.Enforcement.Waiting.{IsTimed}
use emergency_ration_webhook.Verify.Enforcement.Verdicts.{AreVerdicts, run-AreVerdicts}
use emergency_ration_webhook.Verify.Enforcement.Tracking.{capacity_status-matches_nodes}
use emergency_ration_webhook.Verify.Enforcement.Denials.{seen, check_budget-is_memory_only}
use emergency_ration_webhook.Verify.Enforcement.Modes.{TracksMode, s6-leaves_dry_run, s6-IsRestored}
use emergency_ration_webhook.Tests.Samples.{whole, budget, capacity}
use emergency_ration_webhook.Tests.Control.{nodes}
use emergency_ration_webhook.Tests.Decision.{decision_runs}

-- The metrics at a time: the counter is at 3 at first, and at 4 later.
abbrev sample : ℕ → Text
sample w =
    if leb 1 w
    then codes "capacity_admission_verdicts_total{verdict=\"dry_run_deny\"} 4"
    else codes "capacity_admission_verdicts_total{verdict=\"dry_run_deny\"} 3"

-- A cluster whose world is the clock and the mode; every submission is answered with `answer`.
module _ (answer : Result SubmitError Unit) where
  abbrev cluster : Cluster ℤ
  cluster = record {
    World = ℕ × EnforcementMode;
    create = λ n p w. (answer, w);
    delete = λ n w. (ok tt, (w.0 + 1, w.1));
    patch_budget = λ b w. (ok tt, w);
    patch_overrides = λ o w. (ok tt, w);
    patch_mode = λ m w. (ok tt, (w.0, m));
    get_capacity = λ w. (ok capacity, w);
    get_allocation = λ w. (ok budget, w);
    list_nodes = λ w. (ok nodes, w);
    proxy_get = λ path w. (ok (sample w.0), w);
    display = λ e. codes "error";
    now = λ w. w.0;
    sleep = λ ms w. (w.0 + ms, w.1);
  }

  cluster-IsTimed : IsTimed cluster
  cluster-IsTimed = record {
    create-now = λ n p w. omega arith;
    get-now = λ w. omega arith;
    sleep-now = λ ms w. omega arith;
  }

  abbrev cluster-TracksMode : TracksMode cluster
  cluster-TracksMode = record {
    mode = λ w. w.1;
    patch-ok = λ m w h. refl;
    create-keeps = λ n p w. refl;
    delete-keeps = λ n w. refl;
    proxy-keeps = λ path w. refl;
  }

run-AreVerdicts_example :
    (results : List ScenarioResult) × (v : ℕ × EnforcementMode) × (run whole
        (cluster (ok tt))
        (λ s. s)
        61
        (0, enforce)
      ≡ some (results, v))
    × AreVerdicts ("S1" ∷ "S2" ∷ "S3" ∷ "S4" ∷ "S5" ∷ "S6" ∷ "S7" ∷ "S8" ∷ "S9" ∷ []) results
run-AreVerdicts_example =
    run-AreVerdicts whole (cluster (ok tt)) (cluster-IsTimed (ok tt)) (λ s. s) (0, enforce)

s6-leaves_dry_run_example :
    (v : ℕ × EnforcementMode) × (s6 (cluster (err transport)) 61 (0, enforce)
      ≡ some (err (codes "dry-run pod create: unexpected error " ++ codes "error"), v))
    × (v.1 ≡ dry_run)
unfolding is_denied_403
s6-leaves_dry_run_example =
    s6-leaves_dry_run (cluster (err transport)) (cluster-TracksMode (err transport)) 60 (0, enforce)
      transport refl (λ v. refl) refl

s6_passes :
    s6 (cluster (ok tt)) 61 (0, enforce)
    ≡ some (ok (codes "dry-run: over-budget pod admitted; dry_run_deny counter 3→4"), (1, enforce))
unfolding s6 patch_enforcement or_fail dry_run_deny_count proxy_get sum_samples last_token
    probe_dry_run create_pod delete_pod lines contains parse_unsigned show_ℕ
s6_passes = refl

s6-IsRestored_example : (cluster-TracksMode (ok tt)).mode (1, enforce) ≡ enforce
s6-IsRestored_example =
    s6-IsRestored (cluster (ok tt)) (cluster-TracksMode (ok tt)) 61 (0, enforce) s6_passes

-- A tiny request for CPU and a huge one for memory.
check_budget-is_memory_only_example :
    (is_memory_only (
        seen
          (codes "denied the request: ")
          (codes (message (over_budget (violation memory (pos 100) (pos 1000) (pos 500) ∷ [])))))
      ≡ true)
    ↔ ¬ Exceeds cpu (pos 100, pos 100) (pos 10, pos 1000) (pos 500, pos 500)
unfolding decision_runs
check_budget-is_memory_only_example =
    check_budget-is_memory_only (codes "denied the request: ") (pos 100, pos 100) (pos 10, pos 1000)
      (pos 500, pos 500) (violation memory (pos 100) (pos 1000) (pos 500) ∷ []) (refl, refl, refl)
      refl

capacity_status-matches_nodes_example :
    (matches_nodes whole (capacity_status "now" (sum_node_allocatable whole nodes none)) nodes
      ≡ true)
    ↔ All (λ n. is_included (effective_selectors none) n ≡ true) nodes
capacity_status-matches_nodes_example =
    capacity_status-matches_nodes whole "now" nodes none (omega arith)
