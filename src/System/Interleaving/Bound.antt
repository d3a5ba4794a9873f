-- ===== src/System/Interleaving/Bound.antt =====
-- How far the demand of the pods can exceed the budgeted share of the supply, in any interleaving of
-- the webhook's admissions with the demand controller's ticks.
use emergency_ration_webhook.Common.{
  ◌+◌, ◌≤◌, some, none, List, ◌∷◌, ◌++◌, true, inl, inr, ◌≡◌, ◌∙◌, ap, arith,
}
use emergency_ration_webhook.Common.Int.{ℤ, pos, negsuc, ◌≤ℤ◌}
use emergency_ration_webhook.Common.Result.{ok}
use emergency_ration_webhook.Common.Float.{Float}
use emergency_ration_webhook.K8s.{Pod, create, AdmissionRequest, AdmissionApi, Store}
use emergency_ration_webhook.Crd.Allocation.{
  check_exemption, AllocationStatus, AllocationSpec, Allocation, cluster_allocation_name,
}
use emergency_ration_webhook.Resources.Quantity.Range.{IsOrderly}
use emergency_ration_webhook.TimeUtil.{rfc3339_from_unix}
use emergency_ration_webhook.Webhook.Evaluate.{
  evaluate, pod_priority_class, effective_request, exemption_of,
}
use emergency_ration_webhook.Webhook.Evaluate.FailClosed.{evaluate-admits_iff}
use emergency_ration_webhook.Webhook.Admission.{Figures}
use emergency_ration_webhook.Controllers.Singleton.{Api}
use emergency_ration_webhook.Controllers.Singleton.Preservation.{ApiLaws}
use emergency_ration_webhook.Controllers.Singleton.Answering.{IsAnswering}
use emergency_ration_webhook.Controllers.Demand.{fresh_status, recompute}
use emergency_ration_webhook.Controllers.Demand.Recompute.{recompute-keeps_spec}
use emergency_ration_webhook.Controllers.Demand.Run.{Tick}
use emergency_ration_webhook.Controllers.Demand.Run.Healing.{tick_refreshes}
use emergency_ration_webhook.Controllers.Demand.Total.{demand, pod_demand, cpu, memory}
use emergency_ration_webhook.System.Admission.{evaluate-Fits_iff}
use emergency_ration_webhook.System.Interleaving.{
  Setting, share_cpu, share_memory, Cluster, Step, admitted, deleted, ended, recomputed, Reach,
  here, next, IsSteady,
}
use emergency_ration_webhook.System.Interleaving.Requests.{
  demand-deleted, demand-ended, effective_request-created,
}

module _ (fl : Float) (orderly : IsOrderly fl) (kube : AdmissionApi)
    (server : Api (Allocation fl.F) (AllocationStatus fl.F))
    (laws : ApiLaws {Spec = AllocationSpec} server (λ a. a.spec) (λ a. a.status))
    (up : IsAnswering laws) (setting : Setting) (view : server.Server → Store (Allocation fl.F))
    (steady : IsSteady fl kube server setting view laws) where
  open setting use {spec, capacity_store, threshold, own, slack_cpu, slack_memory}

  -- The stored allocation has the spec of the setting and the status for these pods.
  pub record Counts (base : List Pod) (s : server.Server) : Type 0 where
    pub written : ℤ
    pub alloc : Allocation fl.F
    pub held : laws.stored s ≡ some alloc
    pub kept : alloc.spec ≡ spec
    pub named : alloc.name ≡ cluster_allocation_name
    pub status :
        alloc.status ≡ some (fresh_status fl (rfc3339_from_unix written) base capacity_store spec)
    pub early : negsuc 62135596799 ≤ℤ written
    pub late : written ≤ℤ pos 253402300799

  -- The demand of these pods is at most the budgeted share of the supply and the slack.
  abbrev pub IsBounded : List Pod → Type 0
  IsBounded pods =
      (demand fl cpu pods ≤ share_cpu setting + slack_cpu)
      × (demand fl memory pods ≤ share_memory setting + slack_memory)

  -- The status counts some pods; what is there takes at most what they took and what came unseen.
  record Inv (c : Cluster fl kube server setting view) : Type 0 where
    base : List Pod
    counts : Counts base c.store
    bounded_base : IsBounded base
    bounded : IsBounded c.pods
    seen_cpu : demand fl cpu c.pods ≤ demand fl cpu base + c.unseen_cpu
    seen_memory : demand fl memory c.pods ≤ demand fl memory base + c.unseen_memory

  -- An admitted pod that is not exempt has a request that can be read.
  readable :
      (request : AdmissionRequest) (s : server.Server) (alloc : Allocation fl.F) (now : ℤ)
      → laws.stored s ≡ some alloc
      → alloc.name ≡ cluster_allocation_name
      → exemption_of fl request alloc own ≡ none
      → (evaluate fl kube request (view s) capacity_store now threshold own).response.allowed ≡ true
      → (e : Figures) × (effective_request fl request ≡ ok e)
  readable request s alloc now held named subject allowed =
      let a =
        (evaluate-admits_iff fl kube request (view s) capacity_store now threshold own).0 allowed in
      let found = steady.current s held named in
      let same : a.alloc ≡ alloc = cc (a.found, found) in
      elim a.cleared [ inl (reason, exempted) ↦ cc | inr (unexempt, w) ↦ (w.effective, w.readable) ]

  -- The request of an admitted pod fits beside the pods that the status counts.
  admitted-fits :
      (base : List Pod) (s : server.Server) (request : AdmissionRequest) (pod : Pod) (now : ℤ)
      → Counts base s
      → IsBounded base
      → request.operation ≡ create
      → request.object ≡ some pod
      → check_exemption request.namespace (pod_priority_class request) spec own ≡ none
      → (evaluate fl kube request (view s) capacity_store now threshold own).response.allowed ≡ true
      → (demand fl cpu base + pod_demand fl cpu pod ≤ share_cpu setting)
        × (demand fl memory base + pod_demand fl memory pod ≤ share_memory setting)
  admitted-fits base s request pod now counts (bc, bm) made asked subject allowed =
      let unexempt : exemption_of fl request counts.alloc own ≡ none = rw counts.kept subject in
      let (e, read) =
        readable request s counts.alloc now counts.held counts.named unexempt allowed in
      let (shape, c, m) = effective_request-created fl orderly request pod made asked read in
      let (_, fits_cpu, fits_memory) =
        (evaluate-Fits_iff fl orderly kube request (view s) capacity_store capacity_store base spec
            counts.written now threshold own setting.supply_cpu setting.supply_memory (cpu e)
            (memory e) {alloc = counts.alloc} {capacity = steady.capacity}
            (steady.current s counts.held counts.named) counts.status
            (rw counts.kept steady.enforced) unexempt steady.supply (read ∙ ap ok shape)
            steady.totals steady.small_cpu steady.small_memory (omega (arith, steady.room_cpu))
            (omega (arith, steady.room_memory)) counts.early counts.late steady.small_threshold).0
          allowed in
      (omega arith, omega arith)

  recompute-name :
      (base pods : List Pod) (s : server.Server) (written : ℤ) (counts : Counts base s)
      {o : Allocation fl.F}
      → laws.stored (recompute fl server (rfc3339_from_unix written) pods capacity_store s) ≡ some o
      → o.name ≡ cluster_allocation_name
  unfolding recompute
  recompute-name base pods s written counts h =
      steady.keeps_name (server.get s).1 _ (laws.get-stored s ∙ counts.held)
        (rw (up.finds s counts.held) at h)
      ∙ counts.named

  -- A tick makes the status count the pods that are there.
  recompute-Counts :
      (base pods : List Pod) (s : server.Server) (written : ℤ)
      → Counts base s
      → negsuc 62135596799 ≤ℤ written
      → written ≤ℤ pos 253402300799
      → Counts pods (recompute fl server (rfc3339_from_unix written) pods capacity_store s)
  recompute-Counts base pods s written counts early late =
      let t : Tick = record {
        now = rfc3339_from_unix written;
        pods = pods;
        capacity_store = capacity_store;
      } in
      let (o, held, status) = tick_refreshes fl server laws up t s counts.held in
      let (o₂, also_held, kept) =
        recompute-keeps_spec fl server laws (rfc3339_from_unix written) pods capacity_store s
          counts.held in
      let one : o ≡ o₂ = cc in
      let same : o.spec ≡ spec = rw one (kept ∙ counts.kept) in
      record {
        written = written;
        alloc = o;
        held = held;
        kept = same;
        named = recompute-name base pods s written counts held;
        status = rw (← same) status;
        early = early;
        late = late;
      }

  fewer-Inv :
      (c : Cluster fl kube server setting view) (pods : List Pod)
      → demand fl cpu pods ≤ demand fl cpu c.pods
      → demand fl memory pods ≤ demand fl memory c.pods
      → Inv c
      → Inv (record c { pods = pods })
  fewer-Inv c pods less_cpu less_memory inv = record {
    base = inv.base;
    counts = inv.counts;
    bounded_base = inv.bounded_base;
    bounded = (omega (arith, inv.bounded), omega (arith, inv.bounded));
    seen_cpu = omega (arith, inv.seen_cpu);
    seen_memory = omega (arith, inv.seen_memory);
  }

  Step-Inv :
      {c d : Cluster fl kube server setting view}
      → Step fl kube server setting view c d
      → Inv c
      → Inv d
  Step-Inv (admitted c request pod now made asked subject allowed few_cpu few_memory) inv =
      let (fits_cpu, fits_memory) =
        admitted-fits inv.base c.store request pod now inv.counts inv.bounded_base made asked
          subject allowed in
      record {
        base = inv.base;
        counts = inv.counts;
        bounded_base = inv.bounded_base;
        bounded = (omega (arith, inv.seen_cpu), omega (arith, inv.seen_memory));
        seen_cpu = omega (arith, inv.seen_cpu);
        seen_memory = omega (arith, inv.seen_memory);
      }
  Step-Inv (deleted c before after pod e) inv =
      fewer-Inv c (before ++ after) (rw e (demand-deleted fl cpu before after pod))
        (rw e (demand-deleted fl memory before after pod)) inv
  Step-Inv (ended c before after pod e) inv =
      fewer-Inv c (before ++ (record pod { phase = some "Succeeded" } ∷ after))
        (rw e (demand-ended fl cpu before after pod))
        (rw e (demand-ended fl memory before after pod)) inv
  Step-Inv (recomputed c written early late) inv = record {
    base = c.pods;
    counts = recompute-Counts inv.base c.pods c.store written inv.counts early late;
    bounded_base = inv.bounded;
    bounded = inv.bounded;
    seen_cpu = omega arith;
    seen_memory = omega arith;
  }

  Reach-Inv :
      {c d : Cluster fl kube server setting view}
      → Inv c
      → Reach fl kube server setting view c d
      → Inv d
  Reach-Inv inv here = inv
  Reach-Inv inv (next r step) = Step-Inv step (Reach-Inv inv r)

  -- Where floats are orderly, the API server answers, the webhook's cache holds what is stored, supply
  -- and budgets stay, the mode is enforce and the totals stay within i64: if the stored status counts
  -- the pods that are there, and their demand is within the budgeted share of the supply, then in
  -- whatever order the webhook admits pods that are not exempt, pods end or are deleted, and the demand
  -- controller ticks, the demand of the pods exceeds the share by at most the slack, if a pod is only
  -- ever admitted while at most the slack has been admitted since the last tick. With a slack of 0,
  -- where a tick stands between any two admissions that ask for anything, the budget is kept.
  pub Reach-IsBounded :
      (start : Cluster fl kube server setting view) {c : Cluster fl kube server setting view}
      → Counts start.pods start.store
      → demand fl cpu start.pods ≤ share_cpu setting
      → demand fl memory start.pods ≤ share_memory setting
      → Reach fl kube server setting view start c
      → IsBounded c.pods
  Reach-IsBounded start counts within_cpu within_memory r =
      (Reach-Inv
        (record {
          base = start.pods;
          counts = counts;
          bounded_base = (omega arith, omega arith);
          bounded = (omega arith, omega arith);
          seen_cpu = omega arith;
          seen_memory = omega arith;
        })
        r).bounded
