-- ===== src/Equalizer/Algorithm.antt =====
-- equalizer/algorithm.rs: the budgets of the clusters for one resource.
pub mod Budgets
use emergency_ration_webhook.Common.{
  ℕ, String, List, [], ◌∷◌, ◌++◌, map, length, Bool, true, false, is_empty, if◌then◌else◌,
}
use emergency_ration_webhook.Common.Int.{ℤ, pos, pos_part, ◌+ℤ◌, ◌-ℤ◌, ◌*ℤ◌, tdiv, ltb_ℤ}
use emergency_ration_webhook.Common.Word.{wrap32, wrap128, clamp}
use emergency_ration_webhook.Common.Float.{Float}

pub record ClusterResourceObservation (F : Type 0) : Type 0 where
  pub name : String
  pub utilization_percent : F
  pub total_allocatable : ℤ

pub data BudgetState : Type 0 where
  good over : BudgetState

pub record ComputedBudget : Type 0 where
  pub name : String
  pub budget_percent : ℤ
  pub state : BudgetState

-- The elements that pass the test, or that do not: `partition`.
abbrev pub select : {A : Type 0} → (A → Bool) → Bool → List A → List A
select p wanted [] = []
select p wanted (x ∷ xs) =
    let rest = select p wanted xs in
    if p x then (if wanted then x ∷ rest else rest) else (if wanted then rest else x ∷ rest)

-- The budget of a good cluster, from its share of the overflow.
unfoldable pub good_budget : ℤ → ℤ → ℤ → ℤ
good_budget target share allocatable =
    let reduction =
      if ltb_ℤ (pos 0) allocatable
      then wrap32 (tdiv (wrap128 (share *ℤ pos 100)) (pos_part allocatable))
      else pos 0 in
    clamp (pos 0) (pos 100) (wrap32 (target -ℤ reduction))

abbrev pub good_result : {F : Type 0} → ℤ → ℤ → ClusterResourceObservation F → ComputedBudget
good_result target share g = record {
  name = g.name;
  budget_percent = good_budget target share g.total_allocatable;
  state = good;
}

module _ (fl : Float) where
  abbrev pub Observation : Type 0
  Observation = ClusterResourceObservation fl.F

  -- `utilization_percent > target`.
  abbrev pub is_over : ℤ → Observation → Bool
  is_over target o = fl.lt (fl.of_ℤ target) o.utilization_percent

  -- `f64::clamp`.
  abbrev pub clamp_float : fl.F → fl.F → fl.F → fl.F
  clamp_float lo hi x = if fl.lt x lo then lo else if fl.lt hi x then hi else x

  abbrev pub frozen : Observation → ComputedBudget
  frozen o = record {
    name = o.name;
    budget_percent =
        fl.to_i32
          (clamp_float (fl.of_ℤ (pos 0)) (fl.of_ℤ (pos 100)) (fl.floor o.utilization_percent));
    state = over;
  }

  -- What a cluster over the target adds to the overflow.
  abbrev pub overflow_of : ℤ → Observation → ℤ
  overflow_of target o =
      let pct_overflow =
        fl.fmax (fl.sub o.utilization_percent (fl.of_ℤ target)) (fl.of_ℤ (pos 0)) in
      fl.to_i128 (fl.div (fl.mul pct_overflow (fl.of_ℤ o.total_allocatable)) (fl.of_ℤ (pos 100)))

  unfoldable pub overflow_abs : ℤ → List Observation → ℤ
  overflow_abs target [] = pos 0
  overflow_abs target (o ∷ os) = wrap128 (overflow_of target o +ℤ overflow_abs target os)

  -- The results once the clusters are parted.
  abbrev pub results : ℤ → List Observation → List Observation → List ComputedBudget
  results target overs [] = map frozen overs
  results target overs (g ∷ gs) =
      let share = tdiv (overflow_abs target overs) (length (g ∷ gs)) in
      map frozen overs ++ map (good_result target share) (g ∷ gs)

  unfoldable pub equalize : List Observation → ℤ → List ComputedBudget
  equalize observations target =
      results target (select (is_over target) true observations)
        (select (is_over target) false observations)
