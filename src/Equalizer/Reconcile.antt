-- ===== src/Equalizer/Reconcile.antt =====
-- equalizer/crd.rs and equalizer/reconcile.rs: the condition of the fleet, and one reconcile from
-- what is read of each target to the patches and the status.
pub mod Condition
pub mod Reported
use emergency_ration_webhook.Common.{
  String, Option, none, some, List, [], ◌∷◌, map, Bool, true, false, any, ◌||◌, ◌==ˢ◌,
  if◌then◌else◌,
}
use emergency_ration_webhook.Common.Int.{ℤ, pos}
use emergency_ration_webhook.Common.Result.{Result, ok, err, is_some_and}
use emergency_ration_webhook.Common.Float.{Float}
use emergency_ration_webhook.Webhook.Failure.{◌<>◌}
use emergency_ration_webhook.Equalizer.Algorithm
use emergency_ration_webhook.Equalizer.Algorithm.{
  ClusterResourceObservation, BudgetState, ComputedBudget, equalize,
}
use emergency_ration_webhook.Equalizer.Resolve.{
  ClusterState, over, unreachable, config_error, TargetCluster, ResolvedTarget, read, failed, World,
  resolve_target,
}

pub data FleetCondition : Type 0 where
  healthy compensating degraded : FleetCondition

abbrev pub is_lost : ClusterState → Bool
is_lost unreachable = true
is_lost config_error = true
is_lost _ = false

abbrev pub is_over : ClusterState → Bool
is_over over = true
is_over _ = false

unfoldable pub fleet_condition : List ClusterState → FleetCondition
fleet_condition states =
    if any is_lost states
    then degraded
    else if any is_over states
    then compensating
    else FleetCondition.healthy

pub record EqualizerConfigSpec : Type 0 where
  pub cpu_target_budget_percent : ℤ
  pub memory_target_budget_percent : ℤ
  pub targets : List TargetCluster

pub record ClusterObservation (F : Type 0) : Type 0 where
  pub name : String
  pub cpu_utilization_percent : F
  pub memory_utilization_percent : F
  pub total_allocatable_cpu_milli : ℤ
  pub total_allocatable_memory_bytes : ℤ
  pub computed_cpu_budget_percent : ℤ
  pub computed_memory_budget_percent : ℤ
  pub state : ClusterState
  pub last_error : Option String
  pub last_observed : String

pub record EqualizerConfigStatus (F : Type 0) : Type 0 where
  pub clusters : List (ClusterObservation F)
  pub condition : FleetCondition
  pub last_reconciled : String

-- The patch of one target's two override fields: the arguments of a call of `patch_overrides`.
pub record Patch (C : Type 0) : Type 0 where
  pub client : C
  pub name : String
  pub cpu_budget : ℤ
  pub memory_budget : ℤ

-- `filter_map(cpu_observation)` and `filter_map(memory_observation)`.
unfoldable pub cpu_observations :
    {C F : Type 0} → List (ResolvedTarget C F) → List (ClusterResourceObservation F)
cpu_observations [] = []
cpu_observations (read name client cpu_util mem_util cpu_alloc mem_alloc ∷ reads) =
    record { name = name; utilization_percent = cpu_util; total_allocatable = cpu_alloc }
    ∷ cpu_observations reads
cpu_observations (failed name state error ∷ reads) = cpu_observations reads

unfoldable pub memory_observations :
    {C F : Type 0} → List (ResolvedTarget C F) → List (ClusterResourceObservation F)
memory_observations [] = []
memory_observations (read name client cpu_util mem_util cpu_alloc mem_alloc ∷ reads) =
    record { name = name; utilization_percent = mem_util; total_allocatable = mem_alloc }
    ∷ memory_observations reads
memory_observations (failed name state error ∷ reads) = memory_observations reads

abbrev or_first : Option ComputedBudget → Bool → ComputedBudget → Option ComputedBudget
or_first (some later) same b = some later
or_first none same b = if same then some b else none

-- Looking a name up in the map collected from the budgets: the last budget of that name.
unfoldable pub by_name : List ComputedBudget → String → Option ComputedBudget
by_name [] name = none
by_name (b ∷ bs) name = or_first (by_name bs name) (b.name ==ˢ name) b

abbrev pub budget_or : Option ComputedBudget → ℤ → ℤ
budget_or none target = target
budget_or (some b) target = b.budget_percent

abbrev pub is_over_state : BudgetState → Bool
is_over_state Algorithm.over = true
is_over_state Algorithm.good = false

module _ (fl : Float) (spec : EqualizerConfigSpec) (cpu mem : List ComputedBudget) where
  abbrev pub cpu_budget_of : String → ℤ
  cpu_budget_of name = budget_or (by_name cpu name) spec.cpu_target_budget_percent

  abbrev pub memory_budget_of : String → ℤ
  memory_budget_of name = budget_or (by_name mem name) spec.memory_target_budget_percent

  module _ {C : Type 0} where
    -- The patches of phase C.
    unfoldable pub patches_of : List (ResolvedTarget C fl.F) → List (Patch C)
    patches_of [] = []
    patches_of (read name client cpu_util mem_util cpu_alloc mem_alloc ∷ reads) =
        record {
          client = client;
          name = name;
          cpu_budget = cpu_budget_of name;
          memory_budget = memory_budget_of name;
        }
        ∷ patches_of reads
    patches_of (failed name state error ∷ reads) = patches_of reads

    unfoldable pub build_observation :
        TargetCluster → ResolvedTarget C fl.F → String → ClusterObservation fl.F
    build_observation target (read name client cpu_util mem_util cpu_alloc mem_alloc) now =
        let is_frozen =
          is_some_and (by_name cpu target.name) (λ b. is_over_state b.state)
          || is_some_and (by_name mem target.name) (λ b. is_over_state b.state) in
        record {
          name = target.name;
          cpu_utilization_percent = cpu_util;
          memory_utilization_percent = mem_util;
          total_allocatable_cpu_milli = cpu_alloc;
          total_allocatable_memory_bytes = mem_alloc;
          computed_cpu_budget_percent = cpu_budget_of target.name;
          computed_memory_budget_percent = memory_budget_of target.name;
          state = if is_frozen then over else ClusterState.healthy;
          last_error = none;
          last_observed = now;
        }
    build_observation target (failed name state error) now = record {
      name = target.name;
      cpu_utilization_percent = fl.of_ℤ (pos 0);
      memory_utilization_percent = fl.of_ℤ (pos 0);
      total_allocatable_cpu_milli = pos 0;
      total_allocatable_memory_bytes = pos 0;
      computed_cpu_budget_percent = pos 0;
      computed_memory_budget_percent = pos 0;
      state = state;
      last_error = some error;
      last_observed = "";
    }

    -- The observations of phase D: the targets zipped with what was read.
    unfoldable pub observations_of :
        String → List TargetCluster → List (ResolvedTarget C fl.F) → List (ClusterObservation fl.F)
    observations_of now [] reads = []
    observations_of now (target ∷ targets) [] = []
    observations_of now (target ∷ targets) (r ∷ reads) =
        build_observation target r now ∷ observations_of now targets reads

-- Phases B to D, on what phase A read.
unfoldable pub equalize_fleet :
    {C : Type 0} (fl : Float)
    → EqualizerConfigSpec
    → String
    → List (ResolvedTarget C fl.F)
    → List (Patch C) × EqualizerConfigStatus fl.F
equalize_fleet fl spec now reads =
    let cpu = equalize fl (cpu_observations reads) spec.cpu_target_budget_percent in
    let mem = equalize fl (memory_observations reads) spec.memory_target_budget_percent in
    let clusters = observations_of fl spec cpu mem now spec.targets reads in
    (
      patches_of fl spec cpu mem reads,
      record {
        clusters = clusters;
        condition = fleet_condition (map (λ c. c.state) clusters);
        last_reconciled = now;
      },
    )

-- `map_err` with the cluster and the text.
abbrev patch_error : String → Result String Unit → Result (String × String) Unit
patch_error name (ok done) = ok done
patch_error name (err e) = err (name, "patching Allocation overrides: " <> e)

unfoldable pub patch_overrides :
    {C F : Type 0} → World C F → Patch C → Result (String × String) Unit
patch_overrides world p = patch_error p.name (world.patch p.client p.cpu_budget p.memory_budget)

abbrev add_failure : Result (String × String) Unit → List (String × String) → List (String × String)
add_failure (ok done) failures = failures
add_failure (err failure) failures = failure ∷ failures

-- The patches that fail, which the code logs and does no more about.
unfoldable pub failed_patches : {C F : Type 0} → World C F → List (Patch C) → List (String × String)
unfolding patch_overrides
failed_patches world [] = []
failed_patches world (p ∷ patches) =
    add_failure (patch_overrides world p) (failed_patches world patches)

-- `reconcile`: the patches it sends, the status it returns and the failures it logs.
unfoldable pub reconcile :
    {C : Type 0} (fl : Float)
    → World C fl.F
    → EqualizerConfigSpec
    → String
    → List (Patch C) × EqualizerConfigStatus fl.F × List (String × String)
unfolding failed_patches
reconcile fl world spec now =
    let (patches, status) = equalize_fleet fl spec now (map (resolve_target world) spec.targets) in
    (patches, status, failed_patches world patches)
