-- ===== src/Verify/Enforcement/Waiting.antt =====
-- The waits of bin/erw-verify/scenarios/enforcement.rs come to an end.
use emergency_ration_webhook.Common.{
  ℕ, zero, suc, ◌+◌, ◌*◌, ◌≤◌, String, Option, none, some, Bool, Bool-cases, inl, inr, arith, leb,
}
use emergency_ration_webhook.Common.Int.{ℤ}
use emergency_ration_webhook.Common.Result.{Result, ok, err}
use emergency_ration_webhook.Common.Task.{Outcome, Meets, Ends, continue-Ends, caught}
use emergency_ration_webhook.Common.Text.{Text}
use emergency_ration_webhook.K8s.{Pod}
use emergency_ration_webhook.Crd.Allocation.{AllocationStatus, EnforcementMode}
use emergency_ration_webhook.Crd.ClusterCapacity.{ClusterCapacityStatus}
use emergency_ration_webhook.Verify.Degradation.{SubmitError}
use emergency_ration_webhook.Verify.Enforcement.{
  Cluster, or_fail, read_passes, await_ceiling, apply_budget, restore_budget, memory_of,
  total_allocatable_memory, wait_for_memory_ceiling, apply_per_resource_budgets,
  restore_per_resource_budgets, patch_enforcement,
}

-- The clock: a call takes no negative time, and a sleep takes at least its time.
pub record IsTimed {F : Type 0} (cluster : Cluster F) : Type 0 where
  pub create-now :
      (n : Text) (p : Pod) (w : cluster.World)
      → cluster.now w ≤ cluster.now (cluster.create n p w).1
  pub get-now : (w : cluster.World) → cluster.now w ≤ cluster.now (cluster.get_allocation w).1
  pub sleep-now :
      (ms : ℕ) (w : cluster.World) → cluster.now w + ms ≤ cluster.now (cluster.sleep ms w)

-- An outcome is there.
abbrev pub IsThere : {World A : Type 0} → Outcome World A → Type 0
IsThere o = Meets (λ r v. Unit {0}) o

pub caught-IsThere : {World A : Type 0} (o : Outcome World A) → IsThere o → IsThere (caught o)
caught-IsThere none h = h
caught-IsThere (some (r, w)) h = tt

module _ {F : Type 0} (cluster : Cluster F) (timely : IsTimed cluster) where
  open cluster use {World}

  pub or_fail-Ends :
      {A : Type 0} (what : Text) (r : Result SubmitError A) → Ends (or_fail cluster what r)
  unfolding or_fail
  or_fail-Ends what (ok a) w = tt
  or_fail-Ends what (err e) w = tt

  pub await_ceiling-IsThere :
      (fuel : ℕ) (test : AllocationStatus F → Bool) (late : Text) (deadline : ℕ) (w : World)
      → deadline ≤ cluster.now w + fuel * 500
      → IsThere (await_ceiling cluster (suc fuel) test late deadline w)
  unfolding await_ceiling
  await_ceiling-IsThere zero test late deadline w h =
      elim (Bool-cases (leb deadline (cluster.now w))) [
        | inl over ↦ rw over tt
        | inr early ↦ ground arith
      ]
  await_ceiling-IsThere (suc fuel) test late deadline w h =
      elim (Bool-cases (leb deadline (cluster.now w))) [
        | inl over ↦ rw over tt
        | inr early ↦ elim (Bool-cases (read_passes cluster test (cluster.get_allocation w).0)) [
          | inl seen ↦ rw (early, seen) tt
          | inr unseen ↦
              rw (early, unseen)
                (await_ceiling-IsThere fuel test late deadline _ (
                  omega
                    (arith, timely.get-now w, timely.sleep-now 500 (cluster.get_allocation w).1)))
        ]
      ]

  pub apply_budget-Ends : (budget : ℤ) → Ends (apply_budget cluster 61 budget)
  unfolding apply_budget
  apply_budget-Ends budget w =
      continue-Ends _ _ (or_fail-Ends _ (cluster.patch_budget budget w).0 _) (λ _ v.
        continue-Ends _ _ (or_fail-Ends _ (cluster.get_capacity v).0 _)
          (λ capacity u. await_ceiling-IsThere 60 _ _ _ u (omega arith)))

  pub restore_budget-Ends : Ends (restore_budget cluster 61)
  unfolding restore_budget
  restore_budget-Ends w = caught-IsThere _ (apply_budget-Ends _ w)

  pub memory_of-Ends : (status : Option ClusterCapacityStatus) → Ends (memory_of cluster status)
  unfolding memory_of
  memory_of-Ends none w = tt
  memory_of-Ends (some status) w = tt

  pub total_allocatable_memory-Ends : Ends (total_allocatable_memory cluster)
  unfolding total_allocatable_memory
  total_allocatable_memory-Ends w =
      continue-Ends _ _ (or_fail-Ends _ (cluster.get_capacity w).0 _)
        (λ capacity v. memory_of-Ends capacity.status v)

  pub wait_for_memory_ceiling-Ends :
      (expected : ℤ) (label : String) → Ends (wait_for_memory_ceiling cluster 61 expected label)
  unfolding wait_for_memory_ceiling
  wait_for_memory_ceiling-Ends expected label w = await_ceiling-IsThere 60 _ _ _ w (omega arith)

  pub apply_per_resource_budgets-Ends :
      (cpu_override mem_override : ℤ)
      → Ends (apply_per_resource_budgets cluster 61 cpu_override mem_override)
  unfolding apply_per_resource_budgets
  apply_per_resource_budgets-Ends cpu_override mem_override w =
      continue-Ends _ _ (or_fail-Ends _ (cluster.patch_overrides _ w).0 _) (λ _ v.
        continue-Ends _ _ (total_allocatable_memory-Ends v)
          (λ total. wait_for_memory_ceiling-Ends _ _))

  pub restore_per_resource_budgets-Ends : Ends (restore_per_resource_budgets cluster 61)
  unfolding restore_per_resource_budgets
  restore_per_resource_budgets-Ends w = caught-IsThere _ (
      continue-Ends _ _ (or_fail-Ends _ (cluster.patch_overrides none w).0 _) (λ _ v.
        continue-Ends _ _ (total_allocatable_memory-Ends v)
          (λ total. wait_for_memory_ceiling-Ends _ _)))

  pub patch_enforcement-Ends : (mode : EnforcementMode) → Ends (patch_enforcement cluster mode)
  unfolding patch_enforcement
  patch_enforcement-Ends mode w = or_fail-Ends _ (cluster.patch_mode mode w).0 _
