-- ===== src/Tests/Degraded.antt =====
-- Runs of the degradation scenarios.
use emergency_ration_webhook.Common.{
  ℕ, none, some, List, [], ◌∷◌, ◌+◌, ◌++◌, true, false, ◌≡◌, refl, arith, leb, if◌then◌else◌,
}
use emergency_ration_webhook.Common.Int.{ℤ}
use emergency_ration_webhook.Common.Result.{ok, err}
use emergency_ration_webhook.Common.Text.{codes, Text}
use emergency_ration_webhook.Webhook.Failure.{
  capacity_data_stale, capacity_data_missing, allocation, message,
}
use emergency_ration_webhook.Verify.Scenarios.{ScenarioResult}
use emergency_ration_webhook.Verify.Degradation.{
  api_status, expected, unexpected, expect_capacity_unavailable, expect_stale, Site,
  endpoints_populated,
}
use emergency_ration_webhook.Verify.Degradation.Sequence.{run}
use emergency_ration_webhook.Verify.Degradation.Probing.{IsTimed}
use emergency_ration_webhook.Verify.Degradation.Classification.{expect_messages}
use emergency_ration_webhook.Verify.Degradation.Verdicts.{AreReported, run-AreReported}
use emergency_ration_webhook.Tests.Samples.{budget}

-- A site whose clock is its world, and where the webhook has no capacity data from the first second on.
abbrev refusal : Text
refusal = codes "denied the request: " ++ codes (message (capacity_data_missing allocation))

abbrev site : Site ℤ
site = record {
  World = ℕ;
  create_pod = λ n w. (if leb 1000 w then err (api_status 500 refusal) else ok tt, w);
  delete_pod = λ n w. (ok tt, w);
  delete_webhook_pods = λ w. (ok tt, w);
  delete_allocation = λ w. (ok tt, w);
  delete_capacity = λ w. (ok tt, w);
  list_pods = λ w. (
    ok (some (record { phase = some "Running"; container_statuses = some (true ∷ []) }) ∷ []),
    w,
  );
  get_endpoints = λ w. (ok (some (some (codes "10.244.0.5" ∷ []) ∷ [])), w);
  get_allocation = λ w. (ok budget, w);
  patch_last_updated = λ s w. (ok tt, w);
  display = λ e. codes "error";
  now = λ w. w;
  wall = λ w. some 1700000000;
  sleep = λ ms w. w + ms;
}

site-IsTimed : IsTimed site
site-IsTimed = record {
  create-now = λ n w. omega arith;
  delete-now = λ n w. omega arith;
  list-now = λ w. omega arith;
  endpoints-now = λ w. omega arith;
  get-now = λ w. omega arith;
  patch-now = λ s w. omega arith;
  sleep-now = λ ms w. omega arith;
}

run-AreReported_example :
    (results : List ScenarioResult) × (v : ℕ) × (run site 61 0 ≡ some (results, v))
    × AreReported site site-IsTimed 0 results v
run-AreReported_example = run-AreReported site site-IsTimed 0

expect_messages_example :
    (expect_capacity_unavailable
        (codes "denied: " ++ (codes (message (capacity_data_missing allocation)) ++ []))
      ≡ expected)
    × (expect_stale (codes "denied: " ++ (codes (message (capacity_data_stale 45 30)) ++ []))
        ≡ expected)
    × (expect_capacity_unavailable
          (codes "denied: " ++ (codes (message (capacity_data_stale 45 30)) ++ []))
        ≡ expected)
    × (expect_stale (codes (message (capacity_data_missing allocation))) ≡ unexpected)
expect_messages_example = expect_messages allocation 45 30 (codes "denied: ") []

-- Endpoints with a ready address in the second subset only, and with none.
second_subset : endpoints_populated (some (some [] ∷ some (codes "10.244.0.7" ∷ []) ∷ [])) ≡ true
unfolding endpoints_populated
second_subset = refl

no_address : endpoints_populated (some (none ∷ some [] ∷ [])) ≡ false
unfolding endpoints_populated
no_address = refl
