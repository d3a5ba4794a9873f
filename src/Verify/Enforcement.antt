-- ===== src/Verify/Enforcement.antt =====
-- bin/erw-verify/scenarios/enforcement.rs: the cluster as the enforcement scenarios see it, the test pods,
-- and the budgets that they set and wait for. The loops run on fuel; Waiting and Ending show that 61
-- rounds are enough for each.
pub mod Scenarios
pub mod Readings
pub mod Sequence
pub mod Waiting
pub mod Ending
pub mod Verdicts
pub mod Tracking
pub mod Denials
pub mod Modes
use emergency_ration_webhook.Common.{
  ℕ, zero, suc, ◌+◌, String, Option, none, some, List, [], ◌∷◌, ◌++◌, Bool, true, false, leb, ◌==◌,
  if◌then◌else◌,
}
use emergency_ration_webhook.Common.Int.{ℤ, pos, ◌*ℤ◌, tdiv, ◌==ℤ◌}
use emergency_ration_webhook.Common.Word.{saturate}
use emergency_ration_webhook.Common.Result.{Result, ok, err}
use emergency_ration_webhook.Common.Task.{Task, ◌>>=◌, pure, fail, call, read, attempt}
use emergency_ration_webhook.Common.Text.{codes, Text, lines, show_ℤ}
use emergency_ration_webhook.K8s.{Pod, Node}
use emergency_ration_webhook.Crd.Allocation.{
  EnforcementMode, enforce, dry_run, AllocationStatus, Allocation,
}
use emergency_ration_webhook.Crd.ClusterCapacity.{ClusterCapacity, ClusterCapacityStatus}
use emergency_ration_webhook.Verify.Degradation.{SubmitError, api_status, transport, first_line}

-- `DEFAULT_BUDGET_PERCENT`.
abbrev pub scenario_budget_percent : ℤ
scenario_budget_percent = pos 80

-- The calls on the cluster, the text of an error, and the clock in milliseconds.
pub record Cluster (F : Type 0) : Type 1 where
  pub World : Type 0
  pub create : Text → Pod → World → Result SubmitError Unit × World
  pub delete : Text → World → Result SubmitError Unit × World
  -- The merge patches of `spec.budgetPercent`, of the two overrides (null where there is none), and
  -- of `spec.enforcementMode`.
  pub patch_budget : ℤ → World → Result SubmitError Unit × World
  pub patch_overrides : Option (ℤ × ℤ) → World → Result SubmitError Unit × World
  pub patch_mode : EnforcementMode → World → Result SubmitError Unit × World
  pub get_capacity : World → Result SubmitError ClusterCapacity × World
  pub get_allocation : World → Result SubmitError (Allocation F) × World
  pub list_nodes : World → Result SubmitError (List Node) × World
  pub proxy_get : Text → World → Result SubmitError Text × World
  pub display : SubmitError → Text
  pub now : World → ℕ
  pub sleep : ℕ → World → World

-- `test_pod`, less its name, namespace and image.
abbrev pub test_pod : String → String → Pod
test_pod cpu memory = record {
  spec = some (record {
    containers =
        record {
          resources =
              some (record {
                requests = some (("cpu", cpu) ∷ ("memory", memory) ∷ []);
                limits = none;
              });
        }
        ∷ [];
    init_containers = none;
    priority_class_name = none;
  });
  phase = none;
}

unfoldable pub is_denied_403 : SubmitError → Bool
is_denied_403 (api_status code message) = code == 403
is_denied_403 transport = false

-- `create_pod` answered with the 403 of a denial.
abbrev pub denied_403 : Result SubmitError Unit → Bool
denied_403 (ok created) = false
denied_403 (err e) = is_denied_403 e

abbrev pub is_created : Result SubmitError Unit → Bool
is_created (ok created) = true
is_created (err e) = false

-- The `Debug` form of a mode.
abbrev debug_mode : EnforcementMode → String
debug_mode enforce = "Enforce"
debug_mode dry_run = "DryRun"

module _ {F : Type 0} (cluster : Cluster F) where
  open cluster use {World}

  unfoldable pub denial_message : SubmitError → Text
  unfolding lines
  denial_message (api_status code message) = first_line (lines message)
  denial_message transport = cluster.display transport

  unfoldable pub create_pod : Text → String → String → Task World (Result SubmitError Unit)
  create_pod name cpu memory = call (cluster.create name (test_pod cpu memory))

  abbrev after_delete : Result SubmitError Unit → Result SubmitError Unit
  after_delete (ok deleted) = ok tt
  after_delete (err (api_status code message)) =
      if code == 404 then ok tt else err (api_status code message)
  after_delete (err transport) = err transport

  unfoldable pub delete_pod : Text → Task World (Result SubmitError Unit)
  delete_pod name = do answer ← call (cluster.delete name); pure (after_delete answer)

  -- `map_err` with this text before the error, and `?`.
  unfoldable pub or_fail : {A : Type 0} → Text → Result SubmitError A → Task World A
  or_fail what (ok a) = pure a
  or_fail what (err e) = fail (what ++ (codes ": " ++ cluster.display e))

  -- The status of a read allocation passes a test.
  abbrev status_passes : (AllocationStatus F → Bool) → Option (AllocationStatus F) → Bool
  status_passes test none = false
  status_passes test (some status) = test status

  abbrev pub read_passes : (AllocationStatus F → Bool) → Result SubmitError (Allocation F) → Bool
  read_passes test (ok allocation) = status_passes test allocation.status
  read_passes test (err e) = false

  -- One round of the wait, at the answer of `get`.
  abbrev pub after_read :
      (AllocationStatus F → Bool)
      → Task World Unit
      → Result SubmitError (Allocation F)
      → Task World Unit
  after_read test rest answer w =
      if read_passes test answer then some (ok tt, w) else rest (cluster.sleep 500 w)

  -- The loops that wait for a ceiling: they differ in the test and in the text of the error.
  unfoldable pub await_ceiling : ℕ → (AllocationStatus F → Bool) → Text → ℕ → Task World Unit
  await_ceiling zero test late deadline w = none
  await_ceiling (suc fuel) test late deadline w =
      let (answer, v) = cluster.get_allocation w in
      let on = after_read test (await_ceiling fuel test late deadline) answer v in
      if leb deadline (cluster.now w) then some (err late, w) else on

  abbrev pub capacity_cpu : Option ClusterCapacityStatus → ℤ
  capacity_cpu none = pos 0
  capacity_cpu (some status) = status.total_allocatable_cpu_milli

  -- `total.saturating_mul(budget) / 100`.
  unfoldable pub expected_ceiling : ℤ → ℤ → ℤ
  unfolding saturate ◌*ℤ◌ tdiv
  expected_ceiling total budget = tdiv (saturate (total *ℤ budget)) 100

  unfoldable pub apply_budget : ℕ → ℤ → Task World Unit
  unfolding await_ceiling
  apply_budget fuel budget = do
    patched ← call (cluster.patch_budget budget)
    _ ← or_fail (codes "patching budgetPercent=" ++ codes (show_ℤ budget)) patched
    answer ← call cluster.get_capacity
    capacity ← or_fail (codes "reading ClusterCapacity supply") answer
    let expected = expected_ceiling (capacity_cpu capacity.status) budget
    start ← read cluster.now
    await_ceiling fuel (λ status. status.ceiling_cpu_milli ==ℤ expected)
        (codes "budgetPercent="
          ++ (codes (show_ℤ budget)
              ++ (codes " did not propagate: ceiling never reached "
                  ++ (codes (show_ℤ expected) ++ codes "m"))))
        (start + 30000)

  unfoldable pub restore_budget : ℕ → Task World (Result Text Unit)
  restore_budget fuel = attempt (apply_budget fuel scenario_budget_percent)

  unfoldable pub memory_of : Option ClusterCapacityStatus → Task World ℤ
  memory_of none = fail (codes "ClusterCapacity has no status yet")
  memory_of (some status) = pure status.total_allocatable_memory_bytes

  unfoldable pub total_allocatable_memory : Task World ℤ
  total_allocatable_memory = do
    answer ← call cluster.get_capacity
    capacity ← or_fail (codes "reading ClusterCapacity supply") answer
    memory_of capacity.status

  unfoldable pub wait_for_memory_ceiling : ℕ → ℤ → String → Task World Unit
  unfolding await_ceiling
  wait_for_memory_ceiling fuel expected label = do
    start ← read cluster.now
    await_ceiling fuel (λ status. status.ceiling_memory_bytes ==ℤ expected)
        (codes label
          ++ (codes " did not propagate: memory ceiling never reached "
              ++ (codes (show_ℤ expected) ++ codes " bytes")))
        (start + 30000)

  unfoldable pub apply_per_resource_budgets : ℕ → ℤ → ℤ → Task World Unit
  apply_per_resource_budgets fuel cpu_override mem_override = do
    patched ← call (cluster.patch_overrides (some (cpu_override, mem_override)))
    _ ← or_fail (codes "patching per-resource budgets") patched
    total ← total_allocatable_memory
    wait_for_memory_ceiling fuel (expected_ceiling total mem_override) "per-resource budgets"

  -- The early returns of the restoring, as failures that its caller drops.
  abbrev restoring : ℕ → Task World Unit
  restoring fuel = do
    patched ← call (cluster.patch_overrides none)
    _ ← or_fail [] patched
    total ← total_allocatable_memory
    wait_for_memory_ceiling fuel (expected_ceiling total scenario_budget_percent)
        "restore per-resource budgets"

  unfoldable pub restore_per_resource_budgets : ℕ → Task World (Result Text Unit)
  restore_per_resource_budgets fuel = attempt (restoring fuel)

  unfoldable pub patch_enforcement : EnforcementMode → Task World Unit
  patch_enforcement mode = do
    patched ← call (cluster.patch_mode mode)
    or_fail (codes "patching enforcementMode=" ++ codes (debug_mode mode)) patched
