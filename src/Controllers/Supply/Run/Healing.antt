-- ===== src/Controllers/Supply/Run/Healing.antt =====
-- The loop of controllers/node_capacity.rs heals: on a server that answers, one node event brings
-- the stored status up to date, whatever happened before.
use emergency_ration_webhook.Common.{
  none, some, List, [], ◌∷◌, ◌++◌, ◌≡◌, ◌∙◌, refl, ◌⊎◌, inl, inr, Option-cases,
}
use emergency_ration_webhook.Common.Result.{Result}
use emergency_ration_webhook.Common.Float.{Float}
use emergency_ration_webhook.K8s.{Node}
use emergency_ration_webhook.Crd.ClusterCapacity.{
  ClusterCapacitySpec, ClusterCapacity, ClusterCapacityStatus,
}
use emergency_ration_webhook.Controllers.Singleton.{KubeError, Api}
use emergency_ration_webhook.Controllers.Singleton.Preservation.{ApiLaws}
use emergency_ration_webhook.Controllers.Singleton.Answering.{
  IsAnswering, ensure_singleton-creates, patch_status-stored,
}
use emergency_ration_webhook.Controllers.Supply.{
  read_selectors, sum_node_allocatable, Tally, capacity_status, patch_capacity_status,
  default_capacity_singleton,
}
use emergency_ration_webhook.Controllers.Supply.Run.{Stamps, Event, changed, on_event, loop, run}

module _ (fl : Float) (server : Api ClusterCapacity ClusterCapacityStatus)
    (laws : ApiLaws {Spec = ClusterCapacitySpec} server (λ c. c.spec) (λ c. c.status))
    (up : IsAnswering laws) where
  open laws use {stored}

  -- The tally of the nodes under the selectors of a capacity.
  abbrev tally_under : List Node → ClusterCapacity → Tally
  tally_under nodes o = sum_node_allocatable fl nodes (o.spec).node_selectors

  -- The stored status is the tally of the nodes under the selectors of the stored spec, stamped at
  -- one of the two attempts.
  abbrev pub IsUpToDate : Stamps → List Node → server.Server → Type 0
  IsUpToDate stamps nodes s =
      (o : ClusterCapacity) × (stored s ≡ some o)
      × ((o.status ≡ some (capacity_status stamps.first (tally_under nodes o)))
          ⊎ (o.status ≡ some (capacity_status stamps.second (tally_under nodes o))))

  changed_held :
      (stamps : Stamps) (nodes : List Node) (s : server.Server) {o : ClusterCapacity}
      → stored s ≡ some o
      → IsUpToDate stamps nodes (on_event fl server (changed stamps nodes) s)
  unfolding patch_capacity_status read_selectors
  changed_held stamps nodes s {o} held =
      let status = capacity_status stamps.first (tally_under nodes o) in
      let same = laws.get-stored s ∙ held in
      let (_, answer) = up.patches (server.get s).1 status same in
      let (o', now_held, kept, written) =
        patch_status-stored laws up status (server.get s).1 same in
      rw (up.finds s held, answer) (o', now_held, inl (rw kept written))

  changed_gone :
      (stamps : Stamps) (nodes : List Node) (s : server.Server)
      → stored s ≡ none
      → IsUpToDate stamps nodes (on_event fl server (changed stamps nodes) s)
  unfolding patch_capacity_status read_selectors
  changed_gone stamps nodes s gone =
      let tally = sum_node_allocatable fl nodes none in
      let status = capacity_status stamps.first tally in
      let (_, missed, absent) = up.misses s gone in
      let same = laws.get-stored s ∙ gone in
      let (_, failed, not_found) = up.patch_misses (server.get s).1 status same in
      let created =
        ensure_singleton-creates laws up default_capacity_singleton _
          (laws.patch-none _ status same) in
      let (o, held, kept, written) =
        patch_status-stored laws up (capacity_status stamps.second tally) _ created in
      rw (missed, failed, not_found) (o, held, inr (rw kept written))

  loop-append :
      (es fs : List (Event fl server)) (s : server.Server)
      → loop fl server (es ++ fs) s ≡ loop fl server fs (loop fl server es s)
  unfolding loop
  loop-append [] fs s = refl
  loop-append (e ∷ es) fs s = loop-append es fs _

  -- On a server that answers, whatever happened before, whoever did it: after a node event the
  -- server holds a capacity whose status is the tally of the cached nodes under the selectors of its
  -- spec, stamped at one of the two attempts of that event.
  pub run-IsCurrent :
      (stamps last : Stamps) (listed : Result KubeError (List Node))
      (events : List (Event fl server)) (nodes : List Node) (s : server.Server)
      → IsUpToDate last nodes (run fl server stamps listed (events ++ changed last nodes ∷ []) s)
  unfolding run loop
  run-IsCurrent stamps last listed events nodes s =
      rw (loop-append events (changed last nodes ∷ []), loop)
        (elim (Option-cases (stored (loop fl server events _))) [
          | inl gone ↦ changed_gone last nodes _ gone
          | inr (o, held) ↦ changed_held last nodes _ held
        ])
