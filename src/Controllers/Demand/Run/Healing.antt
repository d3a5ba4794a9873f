-- ===== src/Controllers/Demand/Run/Healing.antt =====
-- The loop of controllers/allocation.rs heals: on a server that answers, two ticks in a row bring
-- the stored status up to date, whatever happened before.
use emergency_ration_webhook.Common.{
  none, some, List, [], ◌∷◌, ◌++◌, ◌≡◌, ◌∙◌, refl, inl, inr, Option-cases,
}
use emergency_ration_webhook.Common.Float.{Float}
use emergency_ration_webhook.Crd.Allocation.{AllocationSpec, AllocationStatus, Allocation}
use emergency_ration_webhook.Controllers.Singleton.{Api}
use emergency_ration_webhook.Controllers.Singleton.Preservation.{ApiLaws}
use emergency_ration_webhook.Controllers.Singleton.Answering.{IsAnswering, ensure_singleton-creates}
use emergency_ration_webhook.Controllers.Demand.{
  default_allocation_singleton, fresh_status, recompute,
}
use emergency_ration_webhook.Controllers.Demand.Recompute.{
  recompute-writes_status, recompute-keeps_spec,
}
use emergency_ration_webhook.Controllers.Demand.Run.{Tick, Event, tick, on_tick, loop, run}

module _ (fl : Float) (server : Api (Allocation fl.F) (AllocationStatus fl.F))
    (laws : ApiLaws {Spec = AllocationSpec} server (λ a. a.spec) (λ a. a.status))
    (up : IsAnswering laws) where
  open laws use {stored}

  -- The stored status is the one that this tick computes for the stored spec.
  abbrev pub IsUpToDate : Tick → server.Server → Type 0
  IsUpToDate t s =
      (o : Allocation fl.F) × (stored s ≡ some o)
      × (o.status ≡ some (fresh_status fl t.now t.pods t.capacity_store o.spec))

  pub tick_refreshes :
      (t : Tick) (s : server.Server) {o : Allocation fl.F}
      → stored s ≡ some o
      → IsUpToDate t (on_tick fl server t s)
  tick_refreshes t s {o} held =
      let found = up.finds s held in
      let same = laws.get-stored s ∙ held in
      let (_, patched) =
        up.patches (server.get s).1 (fresh_status fl t.now t.pods t.capacity_store o.spec) same in
      let (o', now_held, written) =
        recompute-writes_status fl server laws t.now t.pods t.capacity_store s found patched in
      let (o₂, also_held, kept) =
        recompute-keeps_spec fl server laws t.now t.pods t.capacity_store s held in
      let one : o' ≡ o₂ = cc in (o', now_held, rw (one, kept, ← one) written)

  tick_recreates :
      (t : Tick) (s : server.Server)
      → stored s ≡ none
      → stored (on_tick fl server t s) ≡ some default_allocation_singleton
  unfolding recompute
  tick_recreates t s gone =
      let (e, failed, not_found) = up.misses s gone in
      rw (failed, not_found)
        (ensure_singleton-creates laws up default_allocation_singleton (server.get s).1
          (laws.get-stored s ∙ gone))

  tick_stores :
      (t : Tick) (s : server.Server)
      → (o : Allocation fl.F) × (stored (on_tick fl server t s) ≡ some o)
  tick_stores t s = elim (Option-cases (stored s)) [
    | inl gone ↦ (default_allocation_singleton, tick_recreates t s gone)
    | inr (o, held) ↦ let (o', now_held, _) = tick_refreshes t s held in (o', now_held)
  ]

  pub on_tick-on_tick :
      (t u : Tick) (s : server.Server) → IsUpToDate u (on_tick fl server u (on_tick fl server t s))
  on_tick-on_tick t u s = let (o, held) = tick_stores t s in tick_refreshes u _ held

  loop-append :
      (es fs : List (Event fl server)) (s : server.Server)
      → loop fl server (es ++ fs) s ≡ loop fl server fs (loop fl server es s)
  unfolding loop
  loop-append [] fs s = refl
  loop-append (e ∷ es) fs s = loop-append es fs _

  -- On a server that answers, whatever happened before, whoever did it: after two ticks in a row the
  -- server holds an allocation whose status is the one that the second tick computes for its spec.
  pub run-IsUpToDate :
      (first t u : Tick) (events : List (Event fl server)) (s : server.Server)
      → IsUpToDate u (run fl server first (events ++ tick t ∷ tick u ∷ []) s)
  unfolding run loop
  run-IsUpToDate first t u events s =
      rw (loop-append events (tick t ∷ tick u ∷ []), loop) (on_tick-on_tick t u _)
