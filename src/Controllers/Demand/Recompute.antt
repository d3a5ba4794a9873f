-- ===== src/Controllers/Demand/Recompute.antt =====
-- What the recompute of controllers/allocation.rs does to the stored allocation.
use emergency_ration_webhook.Common.{
  String, none, some, List, true, ◌≡◌, ◌∙◌, ◌⊎◌, inl, inr, refl, Bool-cases,
}
use emergency_ration_webhook.Common.Result.{Result, ok, err}
use emergency_ration_webhook.Common.Float.{Float}
use emergency_ration_webhook.K8s.{Pod, Store}
use emergency_ration_webhook.Crd.Allocation.{AllocationSpec, AllocationStatus, Allocation}
use emergency_ration_webhook.Crd.ClusterCapacity.{ClusterCapacity}
use emergency_ration_webhook.Controllers.Singleton.{KubeError, Api, is_not_found}
use emergency_ration_webhook.Controllers.Singleton.Preservation.{
  ApiLaws, ensure_singleton-keeps, ensure_singleton-stored,
}
use emergency_ration_webhook.Controllers.Demand.{
  default_allocation_singleton, fresh_status, after_get, recompute,
}

module _ (fl : Float) (server : Api (Allocation fl.F) (AllocationStatus fl.F))
    (laws : ApiLaws {Spec = AllocationSpec} server (λ a. a.spec) (λ a. a.status)) (now : String)
    (pods : List Pod) (capacity_store : Store ClusterCapacity) where
  open laws use {stored}

  -- The server holds an allocation with this spec.
  abbrev pub HoldsSpec : AllocationSpec → server.Server → Type 0
  HoldsSpec spec s = (o : Allocation fl.F) × (stored s ≡ some o) × (o.spec ≡ spec)

  after_get-HoldsSpec :
      (r : Result KubeError (Allocation fl.F)) (s : server.Server) {o : Allocation fl.F}
      → stored s ≡ some o
      → HoldsSpec o.spec (after_get fl server now pods capacity_store r s)
  after_get-HoldsSpec (ok a) s h = laws.patch-spec s _ h
  after_get-HoldsSpec (err e) s {o} h = elim (Bool-cases (is_not_found e)) [
    | inl gone ↦
        rw gone (o, ensure_singleton-keeps server laws default_allocation_singleton s h, refl)
    | inr other ↦ rw other (o, h, refl)
  ]

  -- A recompute never changes the spec of the stored allocation: the operator's budgets, mode and
  -- exclusions stay as they are, whatever the API server answers.
  pub recompute-keeps_spec :
      (s : server.Server) {o : Allocation fl.F}
      → stored s ≡ some o
      → HoldsSpec o.spec (recompute fl server now pods capacity_store s)
  unfolding recompute
  recompute-keeps_spec s h =
      after_get-HoldsSpec (server.get s).0 (server.get s).1 (laws.get-stored s ∙ h)

  -- Where the read and the patch succeed, the stored status is the one computed from the pods, the
  -- cached supply and the budgets of the spec that was read.
  pub recompute-writes_status :
      (s : server.Server) {o o' : Allocation fl.F}
      → (server.get s).0 ≡ ok o
      → (server.patch_status (fresh_status fl now pods capacity_store o.spec) (server.get s).1).0
        ≡ ok o'
      → (stored_object : Allocation fl.F) × (stored (recompute fl server now pods capacity_store s)
          ≡ some stored_object)
        × (stored_object.status ≡ some (fresh_status fl now pods capacity_store o.spec))
  unfolding recompute
  recompute-writes_status s g p = rw g (laws.patch-status _ _ p)

  -- With nothing stored, a recompute stores nothing but the default allocation.
  recompute-recreates :
      (s : server.Server) {e : KubeError}
      → (server.get s).0 ≡ err e
      → is_not_found e ≡ true
      → (stored (recompute fl server now pods capacity_store s) ≡ none)
        ⊎ (stored (recompute fl server now pods capacity_store s)
            ≡ some default_allocation_singleton)
  unfolding recompute
  recompute-recreates s g gone =
      rw (g, gone)
        (elim (ensure_singleton-stored server laws default_allocation_singleton (server.get s).1) [
          | inl same ↦ inl (same ∙ (laws.get-stored s ∙ laws.get-not_found s g gone))
          | inr (_, set) ↦ inr set
        ])
