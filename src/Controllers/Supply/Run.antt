-- ===== src/Controllers/Supply/Run.antt =====
-- The loop of controllers/node_capacity.rs: the node events, and what the controller makes of the
-- stored capacity.
pub mod Healing
use emergency_ration_webhook.Common.{String, List, [], ◌∷◌}
use emergency_ration_webhook.Common.Result.{Result}
use emergency_ration_webhook.Common.Float.{Float}
use emergency_ration_webhook.K8s.{Node}
use emergency_ration_webhook.Crd.ClusterCapacity.{ClusterCapacity, ClusterCapacityStatus}
use emergency_ration_webhook.Controllers.Singleton.{KubeError, Api, ensure_singleton}
use emergency_ration_webhook.Controllers.Supply.{
  default_capacity_singleton, sum_node_allocatable, read_selectors, patch_capacity_status,
  reconcile_now,
}

-- A round of patching stamps the time up to twice: at the first attempt and at the second.
pub record Stamps : Type 0 where
  pub first : String
  pub second : String

module _ (fl : Float) (server : Api ClusterCapacity ClusterCapacityStatus) where
  -- A watch event with the nodes that the cache then holds, a watch error, or what anyone else does
  -- to the server.
  pub data Event : Type 0 where
    changed : Stamps → List Node → Event
    watch_error : Event
    outside : (server.Server → server.Server) → Event

  abbrev pub on_event : Event → server.Server → server.Server
  on_event (changed stamps snapshot) s =
      let (selectors, s') = read_selectors server s in
      patch_capacity_status server stamps.first stamps.second
        (sum_node_allocatable fl snapshot selectors) s'
  on_event watch_error s = s
  on_event (outside act) s = act s

  -- The stream of events of `run`, over a stretch of time.
  unfoldable pub loop : List Event → server.Server → server.Server
  loop [] s = s
  loop (e ∷ es) s = loop es (on_event e s)

  -- `run`: the singleton, a reconcile from a direct list of the nodes, then the events.
  unfoldable pub run :
      Stamps → Result KubeError (List Node) → List Event → server.Server → server.Server
  unfolding loop
  run stamps listed events s =
      let (report, s') = ensure_singleton server default_capacity_singleton s in
      loop events (reconcile_now server fl listed stamps.first stamps.second s')
