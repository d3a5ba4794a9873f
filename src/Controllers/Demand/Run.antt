-- ===== src/Controllers/Demand/Run.antt =====
-- The loop of controllers/allocation.rs: what happens to the stored allocation between the ticks,
-- and what the controller makes of it.
pub mod Healing
use emergency_ration_webhook.Common.{String, List, [], ◌∷◌}
use emergency_ration_webhook.Common.Float.{Float}
use emergency_ration_webhook.K8s.{Pod, Store}
use emergency_ration_webhook.Crd.Allocation.{AllocationStatus, Allocation}
use emergency_ration_webhook.Crd.ClusterCapacity.{ClusterCapacity}
use emergency_ration_webhook.Controllers.Singleton.{Api, ensure_singleton}
use emergency_ration_webhook.Controllers.Demand.{default_allocation_singleton, recompute}

-- What one tick reads: the clock, and the two caches, which the reflectors keep in the background.
pub record Tick : Type 0 where
  pub now : String
  pub pods : List Pod
  pub capacity_store : Store ClusterCapacity

module _ (fl : Float) (server : Api (Allocation fl.F) (AllocationStatus fl.F)) where
  -- A tick of the loop, or what anyone else does to the server.
  pub data Event : Type 0 where
    tick : Tick → Event
    outside : (server.Server → server.Server) → Event

  abbrev pub on_tick : Tick → server.Server → server.Server
  on_tick t s = recompute fl server t.now t.pods t.capacity_store s

  abbrev on_event : Event → server.Server → server.Server
  on_event (tick t) s = on_tick t s
  on_event (outside act) s = act s

  -- The loop of `run`, over the events of a stretch of time.
  unfoldable pub loop : List Event → server.Server → server.Server
  loop [] s = s
  loop (e ∷ es) s = loop es (on_event e s)

  -- `run`: the singleton, the first recompute, then the loop.
  unfoldable pub run : Tick → List Event → server.Server → server.Server
  unfolding loop
  run first events s =
      let (report, s') = ensure_singleton server default_allocation_singleton s in
      loop events (on_tick first s')
