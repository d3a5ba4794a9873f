-- ===== src/System/Interleaving.antt =====
-- Admissions, ends of pods and recomputes in any order: controllers/allocation.rs writes the status
-- from time to time, and webhook/handler.rs decides by the status that was written last, whatever
-- was admitted since: the webhook itself writes nothing to the server. Updates of pods, pods that the
-- policy exempts, and changes to the spec or the supply are left out.
pub mod Requests
pub mod Bound
use emergency_ration_webhook.Common.{
  ℕ, String, ◌+◌, ◌*◌, ◌/◌, ◌≤◌, ◌<◌, Option, none, some, List, [], ◌∷◌, ◌++◌, true, ◌≡◌,
}
use emergency_ration_webhook.Common.Int.{ℤ, pos, negsuc, ◌≤ℤ◌}
use emergency_ration_webhook.Common.Float.{Float}
use emergency_ration_webhook.K8s.{Pod, create, AdmissionRequest, AdmissionApi, Store}
use emergency_ration_webhook.Crd.Allocation.{
  enforce, resolve_enforcement_mode, check_exemption, AllocationStatus, AllocationSpec, Allocation,
  resolve_effective_budgets, cluster_allocation_name,
}
use emergency_ration_webhook.Crd.ClusterCapacity.{ClusterCapacity, ClusterCapacityStatus}
use emergency_ration_webhook.TimeUtil.{rfc3339_from_unix}
use emergency_ration_webhook.Webhook.Admission.Ceiling.{percent}
use emergency_ration_webhook.Webhook.Observe.{totals_of}
use emergency_ration_webhook.Webhook.Evaluate.{
  evaluate, cached_supply, cached_allocation, pod_priority_class,
}
use emergency_ration_webhook.Controllers.Singleton.{Api}
use emergency_ration_webhook.Controllers.Singleton.Preservation.{ApiLaws}
use emergency_ration_webhook.Controllers.Demand.{recompute}
use emergency_ration_webhook.Controllers.Demand.Total.{demand, pod_demand, cpu, memory}

-- What stays the same: the budgets, the supply with its two figures, the settings of the webhook, and
-- how much of CPU and memory may be admitted unseen.
pub record Setting : Type 0 where
  pub spec : AllocationSpec
  pub capacity_store : Store ClusterCapacity
  pub supply_cpu : ℕ
  pub supply_memory : ℕ
  pub threshold : ℕ
  pub own : String
  pub slack_cpu : ℕ
  pub slack_memory : ℕ

-- The budgeted share of the supply.
abbrev pub share_cpu : Setting → ℕ
share_cpu setting = setting.supply_cpu * percent (resolve_effective_budgets setting.spec).0 / 100

abbrev pub share_memory : Setting → ℕ
share_memory setting =
    setting.supply_memory * percent (resolve_effective_budgets setting.spec).1 / 100

module _ (fl : Float) (kube : AdmissionApi) (server : Api (Allocation fl.F) (AllocationStatus fl.F))
    (setting : Setting) (view : server.Server → Store (Allocation fl.F)) where
  open setting use {spec, capacity_store, threshold, own, slack_cpu, slack_memory}

  -- The pods, the stored allocation, and what was admitted since it was written.
  pub record Cluster : Type 0 where
    pub pods : List Pod
    pub store : server.Server
    pub unseen_cpu : ℕ
    pub unseen_memory : ℕ

  pub data Step : Cluster → Cluster → Type 0 where
    -- The webhook admits a new pod, by what it reads in its cache.
    admitted :
        (c : Cluster) (request : AdmissionRequest) (pod : Pod) (now : ℤ)
        → request.operation ≡ create
        → request.object ≡ some pod
        → check_exemption request.namespace (pod_priority_class request) spec own ≡ none
        → (evaluate fl kube request
            (view c.store)
            capacity_store
            now
            threshold
            own).response.allowed
          ≡ true
        → c.unseen_cpu ≤ slack_cpu
        → c.unseen_memory ≤ slack_memory
        → Step c (record c {
          pods = pod ∷ c.pods;
          unseen_cpu = c.unseen_cpu + pod_demand fl cpu pod;
          unseen_memory = c.unseen_memory + pod_demand fl memory pod;
        })
    -- A pod is deleted.
    deleted :
        (c : Cluster) (before after : List Pod) (pod : Pod)
        → c.pods ≡ before ++ (pod ∷ after)
        → Step c (record c { pods = before ++ after })
    -- A pod ends.
    ended :
        (c : Cluster) (before after : List Pod) (pod : Pod)
        → c.pods ≡ before ++ (pod ∷ after)
        → Step c (record c { pods = before ++ (record pod { phase = some "Succeeded" } ∷ after) })
    -- A tick of the demand controller, at a second of the years 1 to 9999.
    recomputed :
        (c : Cluster) (written : ℤ)
        → negsuc 62135596799 ≤ℤ written
        → written ≤ℤ pos 253402300799
        → Step c (record c {
          store = recompute fl server (rfc3339_from_unix written) c.pods capacity_store c.store;
          unseen_cpu = 0;
          unseen_memory = 0;
        })

  pub data Reach (s : Cluster) : Cluster → Type 0 where
    here : Reach s s
    next : {c d : Cluster} → Reach s c → Step c d → Reach s d

  -- The cache of the webhook holds what is stored, a status patch keeps the name, the supply is known
  -- and below i64::MAX, the mode is enforce, and the totals stay within i64.
  pub record IsSteady (laws : ApiLaws {Spec = AllocationSpec} server (λ a. a.spec) (λ a. a.status))
      : Type 0 where
    pub current :
        (s : server.Server) {o : Allocation fl.F}
        → laws.stored s ≡ some o
        → o.name ≡ cluster_allocation_name
        → cached_allocation fl (view s) ≡ some o
    pub keeps_name :
        (s : server.Server) (t : AllocationStatus fl.F) {o o' : Allocation fl.F}
        → laws.stored s ≡ some o
        → laws.stored (server.patch_status t s).1 ≡ some o'
        → o'.name ≡ o.name
    pub capacity : ClusterCapacityStatus
    pub supply : cached_supply capacity_store ≡ some capacity
    pub totals :
        totals_of fl (cached_supply capacity_store)
        ≡ (pos setting.supply_cpu, pos setting.supply_memory)
    pub enforced : resolve_enforcement_mode spec.enforcement_mode ≡ enforce
    pub small_cpu : setting.supply_cpu < 9223372036854775807
    pub small_memory : setting.supply_memory < 9223372036854775807
    pub small_threshold : threshold < 9223372036854775807
    pub room_cpu : share_cpu setting + slack_cpu ≤ 9223372036854775807
    pub room_memory : share_memory setting + slack_memory ≤ 9223372036854775807
