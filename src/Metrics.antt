-- ===== src/Metrics.antt =====
-- metrics.rs: the calls that the metrics registry makes on its Prometheus series, as a list.
use emergency_ration_webhook.Common.{String, List, [], ◌∷◌, ◌++◌, map}
use emergency_ration_webhook.Common.Int.{ℤ, pos}

-- `ResourceLabel`.
pub data ResourceLabel : Type 0 where
  cpu memory : ResourceLabel

abbrev pub resource_str : ResourceLabel → String
resource_str cpu = "cpu"
resource_str memory = "memory"

-- `VerdictLabel`.
pub data VerdictLabel : Type 0 where
  allow deny dry_run_deny error : VerdictLabel

abbrev pub verdict_str : VerdictLabel → String
verdict_str allow = "allow"
verdict_str deny = "deny"
verdict_str dry_run_deny = "dry_run_deny"
verdict_str error = "error"

pub record CapacityFigures (F : Type 0) : Type 0 where
  pub allocated : ℤ
  pub ceiling : ℤ
  pub total_allocatable : ℤ
  pub ratio : F

-- One call on a series. The `touch` calls create a series without a value.
pub data MetricCall (F : Type 0) : Type 0 where
  touch_verdict : (resource verdict : String) → MetricCall F
  touch_exemption : (reason : String) → MetricCall F
  inc_verdict : (resource verdict : String) → MetricCall F
  inc_exemption : (reason : String) → MetricCall F
  observe_duration : (seconds : F) → MetricCall F
  set_freshness : (seconds : ℤ) → MetricCall F
  set_total_allocatable : (resource : String) (value : ℤ) → MetricCall F
  set_current_allocation : (resource : String) (value : ℤ) → MetricCall F
  set_ceiling : (resource : String) (value : ℤ) → MetricCall F
  set_allocation_ratio : (resource : String) (value : F) → MetricCall F

module _ {F : Type 0} where
  abbrev pub record_verdict : ResourceLabel → VerdictLabel → List (MetricCall F)
  record_verdict resource verdict = inc_verdict (resource_str resource) (verdict_str verdict) ∷ []

  abbrev pub record_exemption : String → List (MetricCall F)
  record_exemption reason = inc_exemption reason ∷ []

  -- One round of the loop of `refresh_capacity`.
  abbrev set_figures : ResourceLabel → CapacityFigures F → List (MetricCall F)
  set_figures resource figures =
      set_total_allocatable (resource_str resource) figures.total_allocatable
      ∷ set_current_allocation (resource_str resource) figures.allocated
      ∷ set_ceiling (resource_str resource) figures.ceiling
      ∷ set_allocation_ratio (resource_str resource) figures.ratio
      ∷ []

  unfoldable pub refresh_capacity : CapacityFigures F → CapacityFigures F → List (MetricCall F)
  refresh_capacity cpu_figures memory_figures =
      set_figures cpu cpu_figures ++ set_figures memory memory_figures

  -- One round of the loop of `new` over the resources; `zero` is 0.0.
  abbrev touch_resource : F → ResourceLabel → List (MetricCall F)
  touch_resource zero resource =
      map (λ v. touch_verdict (resource_str resource) (verdict_str v))
        (allow ∷ deny ∷ dry_run_deny ∷ error ∷ [])
      ++ set_total_allocatable (resource_str resource) (pos 0)
        ∷ set_current_allocation (resource_str resource) (pos 0)
        ∷ set_ceiling (resource_str resource) (pos 0)
        ∷ set_allocation_ratio (resource_str resource) zero
        ∷ []

  -- The series that `Metrics::new` creates.
  unfoldable pub initial_series : F → List (MetricCall F)
  initial_series zero =
      touch_resource zero cpu
      ++ touch_resource zero memory
      ++ map touch_exemption ("namespace" ∷ "priority_class" ∷ "webhook_namespace" ∷ [])
