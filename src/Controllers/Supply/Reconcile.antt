-- ===== src/Controllers/Supply/Reconcile.antt =====
-- What the reconcile of controllers/node_capacity.rs does to the stored capacity.
use emergency_ration_webhook.Common.{String, some, List, ◌≡◌, ◌∙◌, inl, inr, refl, Bool-cases}
use emergency_ration_webhook.Common.Result.{Result, ok, err}
use emergency_ration_webhook.Common.Float.{Float}
use emergency_ration_webhook.K8s.{Node}
use emergency_ration_webhook.Crd.ClusterCapacity.{
  ClusterCapacity, ClusterCapacitySpec, ClusterCapacityStatus,
}
use emergency_ration_webhook.Controllers.Singleton.{KubeError, Api, is_not_found}
use emergency_ration_webhook.Controllers.Singleton.Preservation.{ApiLaws, ensure_singleton-keeps}
use emergency_ration_webhook.Controllers.Supply.{
  capacity_status, default_capacity_singleton, after_patch, patch_capacity_status, reconcile_now,
  read_selectors, tally_of,
}

module _ (server : Api ClusterCapacity ClusterCapacityStatus)
    (laws : ApiLaws {Spec = ClusterCapacitySpec} server (λ c. c.spec) (λ c. c.status)) where
  open laws use {stored}

  -- The server holds a capacity object with this spec.
  abbrev pub HoldsSpec : ClusterCapacitySpec → server.Server → Type 0
  HoldsSpec spec s = (o : ClusterCapacity) × (stored s ≡ some o) × (o.spec ≡ spec)

  patched :
      (t : ClusterCapacityStatus) (s : server.Server) {spec : ClusterCapacitySpec}
      → HoldsSpec spec s
      → HoldsSpec spec (server.patch_status t s).1
  patched t s (o, held, same) =
      let (o', held', same') = laws.patch-spec s t held in (o', held', same' ∙ same)

  after_patch-HoldsSpec :
      (first again : ClusterCapacityStatus) (r : Result KubeError ClusterCapacity)
      (s : server.Server) {spec : ClusterCapacitySpec}
      → HoldsSpec spec s
      → HoldsSpec spec (after_patch server first again r s)
  after_patch-HoldsSpec first again (ok capacity) s h = h
  after_patch-HoldsSpec first again (err e) s h = elim (Bool-cases (is_not_found e)) [
    | inl gone ↦ rw gone (
        patched again _
          (h.0, ensure_singleton-keeps server laws default_capacity_singleton s h.1, h.2))
    | inr other ↦ rw other h
  ]

  -- A reconcile never changes the spec of the stored capacity: the operator's node selectors stay
  -- as they are, whatever the API server answers and whether or not the node list succeeded.
  pub reconcile_now-keeps_spec :
      (fl : Float) (listed : Result KubeError (List Node)) (now later : String) (s : server.Server)
      {o : ClusterCapacity}
      → stored s ≡ some o
      → HoldsSpec o.spec (reconcile_now server fl listed now later s)
  unfolding reconcile_now patch_capacity_status read_selectors
  reconcile_now-keeps_spec fl listed now later s {o} h =
      let (selectors, s') = read_selectors server s in
      let t = tally_of server fl listed selectors in
      after_patch-HoldsSpec (capacity_status now t) (capacity_status later t)
        (server.patch_status (capacity_status now t) s').0
        (server.patch_status (capacity_status now t) s').1
        (patched (capacity_status now t) s' (o, laws.get-stored s ∙ h, refl))
