-- ===== src/Verify/Enforcement/Ending.antt =====
-- The enforcement scenarios of bin/erw-verify/scenarios/enforcement.rs come to an end.
use emergency_ration_webhook.Common.{
  ℕ, zero, suc, ◌+◌, ◌*◌, ◌≤◌, Option, none, some, Bool, Bool-cases, inl, inr, arith, leb,
}
use emergency_ration_webhook.Common.Float.{Float}
use emergency_ration_webhook.Common.Result.{Result, ok, err}
use emergency_ration_webhook.Common.Task.{Task, Ends, continue-Ends}
use emergency_ration_webhook.Common.Text.{codes, Text}
use emergency_ration_webhook.Crd.ClusterCapacity.{ClusterCapacityStatus}
use emergency_ration_webhook.Verify.Degradation.{SubmitError}
use emergency_ration_webhook.Verify.Enforcement.{
  Cluster, test_pod, is_denied_403, create_pod, delete_pod,
}
use emergency_ration_webhook.Verify.Enforcement.Scenarios.{
  after_proxy, proxy_get, dry_run_deny_count, after_s1, after_s2, judge_s9, s1, s2, s3, s4, s5, s6,
  s9, after_dry_run, probe_dry_run,
}
use emergency_ration_webhook.Verify.Enforcement.Readings.{
  at_path, check_metrics, fetch_metrics, after_health, s7, s8,
}
use emergency_ration_webhook.Common.Text.{same, trim}
use emergency_ration_webhook.Verify.Args.{to_ascii_lowercase}
use emergency_ration_webhook.Verify.Enforcement.Readings.{or_missing}
use emergency_ration_webhook.Verify.Enforcement.Waiting.{
  IsTimed, IsThere, caught-IsThere, or_fail-Ends, apply_budget-Ends, restore_budget-Ends,
  apply_per_resource_budgets-Ends, restore_per_resource_budgets-Ends, patch_enforcement-Ends,
}

module _ {F : Type 0} (cluster : Cluster F) (timely : IsTimed cluster) where
  open cluster use {World}

  pub after_s1-Ends : (answer : Result SubmitError Unit) → Ends (after_s1 cluster answer)
  unfolding delete_pod
  after_s1-Ends (ok created) w = tt
  after_s1-Ends (err e) w = tt

  pub s1-Ends : Ends (s1 cluster)
  unfolding s1 create_pod
  s1-Ends w = after_s1-Ends (cluster.create _ _ w).0 _

  pub after_s2-Ends : (answer : Result SubmitError Unit) → Ends (after_s2 cluster answer)
  unfolding delete_pod
  after_s2-Ends (ok created) w = tt
  after_s2-Ends (err e) w = ground arith

  pub s3-Ends : Ends (s3 cluster 61)
  unfolding s3 create_pod delete_pod
  s3-Ends w =
      continue-Ends _ _ (apply_budget-Ends cluster timely _ w)
        (λ _ v. continue-Ends _ _ (restore_budget-Ends cluster timely _) (λ _ u. ground arith))

  pub s4-Ends : Ends (s4 cluster 61)
  unfolding s4 create_pod delete_pod
  s4-Ends w =
      continue-Ends _ _ (apply_budget-Ends cluster timely _ w)
        (λ _ v. continue-Ends _ _ (restore_budget-Ends cluster timely _) (λ _ u. ground arith))

  pub s5-Ends : Ends (s5 cluster 61)
  unfolding s5 create_pod delete_pod
  s5-Ends w =
      continue-Ends _ _ (apply_budget-Ends cluster timely _ w)
        (λ _ v. continue-Ends _ _ (apply_budget-Ends cluster timely _ _) (λ _ u. ground arith))

  pub after_proxy-Ends :
      (path : Text) (r : Result SubmitError Text) → Ends (after_proxy cluster path r)
  after_proxy-Ends path (ok body) w = tt
  after_proxy-Ends path (err e) w = tt

  -- A round of the loop of S6, at the end of what follows a 403.
  pub after_dry_run-IsThere :
      (rest : Task World Bool) (answer : Result SubmitError Unit) (w : World)
      → IsThere (rest (cluster.sleep 1000 w))
      → IsThere (after_dry_run cluster rest answer w)
  unfolding delete_pod
  after_dry_run-IsThere rest (ok created) w h = tt
  after_dry_run-IsThere rest (err e) w h = elim (Bool-cases (is_denied_403 e)) [
    | inl denied ↦ rw denied h
    | inr other ↦ rw other tt
  ]

  pub probe_dry_run-IsThere :
      (fuel deadline : ℕ) (w : World)
      → deadline ≤ cluster.now w + fuel * 1000
      → IsThere (probe_dry_run cluster (suc fuel) deadline w)
  unfolding probe_dry_run create_pod
  probe_dry_run-IsThere zero deadline w h = elim (Bool-cases (leb deadline (cluster.now w))) [
    | inl over ↦ rw over tt
    | inr early ↦ ground arith
  ]
  probe_dry_run-IsThere (suc fuel) deadline w h = elim (Bool-cases (leb deadline (cluster.now w))) [
    | inl over ↦ rw over tt
    | inr early ↦
        let answer = cluster.create (codes "erw-verify-s6") (test_pod "999" "999Gi") w in
        let later : cluster.now w ≤ cluster.now answer.1 =
          timely.create-now (codes "erw-verify-s6") (test_pod "999" "999Gi") w in
        rw early (
          after_dry_run-IsThere (probe_dry_run cluster (suc fuel) deadline) answer.0 answer.1 (
            probe_dry_run-IsThere fuel deadline (cluster.sleep 1000 answer.1)
              (omega (arith, timely.sleep-now 1000 answer.1))))
  ]

  pub proxy_get-Ends : (path : Text) → Ends (proxy_get cluster path)
  unfolding proxy_get
  proxy_get-Ends path w = after_proxy-Ends path (cluster.proxy_get path w).0 _

  pub dry_run_deny_count-Ends : Ends (dry_run_deny_count cluster)
  unfolding dry_run_deny_count
  dry_run_deny_count-Ends w = continue-Ends _ _ (proxy_get-Ends _ w) (λ _ v. tt)

  pub s6-Ends : Ends (s6 cluster 61)
  unfolding s6
  s6-Ends w = continue-Ends _ _ (patch_enforcement-Ends cluster timely _ w) (λ _ v.
      continue-Ends _ _ (caught-IsThere _ (dry_run_deny_count-Ends v)) (λ first u.
        continue-Ends _ _ (probe_dry_run-IsThere 60 _ u (omega arith)) (λ admitted t.
          continue-Ends _ _ (caught-IsThere _ (dry_run_deny_count-Ends t)) (λ last s.
            continue-Ends _ _ (patch_enforcement-Ends cluster timely _ s) (λ _ r. ground arith)))))

  pub judge_s9-Ends : (outcome : Result SubmitError Unit) → Ends (judge_s9 cluster outcome)
  judge_s9-Ends (ok created) w = tt
  judge_s9-Ends (err e) w = ground arith

  pub s9-Ends : Ends (s9 cluster 61)
  unfolding s9 create_pod delete_pod
  s9-Ends w = continue-Ends _ _ (apply_per_resource_budgets-Ends cluster timely _ _ w) (λ _ v.
      continue-Ends _ _ (restore_per_resource_budgets-Ends cluster timely _)
        (λ _ u. judge_s9-Ends _ u))

  pub at_path-Ends : (path : Text) (r : Result Text Text) → Ends (at_path cluster path r)
  unfolding at_path
  at_path-Ends path (ok body) w = tt
  at_path-Ends path (err e) w = tt

  pub check_metrics-Ends : (metrics : Text) → Ends (check_metrics cluster metrics)
  unfolding check_metrics
  check_metrics-Ends metrics w = ground arith

  pub fetch_metrics-Ends : Ends (fetch_metrics cluster)
  unfolding fetch_metrics
  fetch_metrics-Ends w = continue-Ends _ _ (caught-IsThere _ (proxy_get-Ends _ w)) (λ answer v.
      continue-Ends _ _ (at_path-Ends _ answer v) (λ metrics u. check_metrics-Ends metrics u))

  pub after_health-Ends :
      (debug : Text → Text) (health : Text) → Ends (after_health cluster debug health)
  after_health-Ends debug health w =
      elim (Bool-cases (same (to_ascii_lowercase (trim health)) (codes "ok"))) [
        | inl well ↦ rw well (fetch_metrics-Ends w)
        | inr ill ↦ rw ill tt
      ]

  pub s8-Ends : (debug : Text → Text) → Ends (s8 cluster debug)
  unfolding s8
  s8-Ends debug w = continue-Ends _ _ (caught-IsThere _ (proxy_get-Ends _ w)) (λ answer v.
      continue-Ends _ _ (at_path-Ends _ answer v) (λ health u. after_health-Ends debug health u))

  pub s2-Ends : Ends (s2 cluster)
  unfolding s2 create_pod
  s2-Ends w = after_s2-Ends (cluster.create _ _ w).0 _

module _ (fl : Float) (cluster : Cluster fl.F) (timely : IsTimed cluster) where
  pub or_missing-Ends :
      (status : Option ClusterCapacityStatus) → Ends (or_missing fl cluster status)
  unfolding or_missing
  or_missing-Ends none w = tt
  or_missing-Ends (some status) w = tt

  pub s7-Ends : Ends (s7 fl cluster)
  unfolding s7
  s7-Ends w =
      continue-Ends _ _ (or_fail-Ends cluster timely _ (cluster.get_capacity w).0 _) (λ capacity v.
        continue-Ends _ _ (or_missing-Ends capacity.status v) (λ status u.
          continue-Ends _ _ (or_fail-Ends cluster timely _ (cluster.list_nodes u).0 _)
            (λ nodes t. ground arith)))
