-- ===== src/Equalizer/Run/Ticks.antt =====
-- What the loop of bin/capacity-equalizer/main.rs does to the targets and to the config.
use emergency_ration_webhook.Common.{none, some, List, [], ◌∷◌, ◌++◌, map, ◌≡◌, ◌∙◌, refl}
use emergency_ration_webhook.Common.Result.{Result, ok, err}
use emergency_ration_webhook.Common.Float.{Float}
use emergency_ration_webhook.Controllers.Singleton.{KubeError, Api}
use emergency_ration_webhook.Controllers.Singleton.Preservation.{ApiLaws}
use emergency_ration_webhook.Controllers.Singleton.Answering.{IsAnswering, patch_status-stored}
use emergency_ration_webhook.Equalizer.Reconcile.{
  EqualizerConfigSpec, EqualizerConfigStatus, Patch, reconcile,
}
use emergency_ration_webhook.Equalizer.Reconcile.Reported.{
  budgets_of, reported, reconcile-patches_reported,
}
use emergency_ration_webhook.Equalizer.Run.{EqualizerConfig, Tick, State, after_get, on_tick, loop}

module _ {C : Type 0} (fl : Float) (home : Api (EqualizerConfig fl.F) (EqualizerConfigStatus fl.F))
    (laws : ApiLaws {Spec = EqualizerConfigSpec} home (λ c. c.spec) (λ c. c.status)) where
  open laws use {stored}

  -- The patches are those sent before, and no config is stored.
  abbrev pub IsIdle : List (Patch C) → State C home.Server → Type 0
  IsIdle sent state = (state.0 ≡ sent) × (stored state.1 ≡ none)

  after_get-IsIdle :
      (t : Tick C fl.F) (sent : List (Patch C)) (r : Result KubeError (EqualizerConfig fl.F))
      (s s' : home.Server)
      → (home.get s).0 ≡ r
      → stored s ≡ none
      → stored s' ≡ none
      → IsIdle sent (after_get fl home t sent (r, s'))
  after_get-IsIdle t sent (ok config) s s' e h k = cc (laws.get-ok s e)
  after_get-IsIdle t sent (err x) s s' e h k = (refl, k)

  on_tick-IsIdle :
      (t : Tick C fl.F) (sent : List (Patch C)) (s : home.Server)
      → stored s ≡ none
      → IsIdle sent (on_tick fl home t (sent, s))
  unfolding on_tick
  on_tick-IsIdle t sent s h =
      after_get-IsIdle t sent (home.get s).0 s (home.get s).1 refl h (laws.get-stored s ∙ h)

  -- As long as no config is stored, no number of ticks sends a patch to a target, and none creates the
  -- config.
  pub loop-IsIdle :
      (ts : List (Tick C fl.F)) (sent : List (Patch C)) (s : home.Server)
      → stored s ≡ none
      → IsIdle sent (loop fl home ts (sent, s))
  unfolding loop
  loop-IsIdle [] sent s h = (refl, h)
  loop-IsIdle (t ∷ ts) sent s h =
      let (same, k) = on_tick-IsIdle t sent s h in
      let (sent_on, stored_on) = loop-IsIdle ts _ _ k in (sent_on ∙ same, stored_on)

  module _ (up : IsAnswering laws) where
    -- On a server that answers and holds a config, a tick sends exactly the budgets that the status
    -- reports of the targets without an error, stores that status, which is the one of a reconcile of
    -- the stored spec, and leaves the spec as it was.
    pub on_tick-reported :
        (t : Tick C fl.F) (sent : List (Patch C)) (s : home.Server) {config : EqualizerConfig fl.F}
        → stored s ≡ some config
        → let (patches, status, failures) = reconcile fl t.world config.spec t.now in
          ((on_tick fl home t (sent, s)).0 ≡ sent ++ patches)
          × (map budgets_of patches ≡ reported status.clusters)
          × (c : EqualizerConfig fl.F) × (stored (on_tick fl home t (sent, s)).1 ≡ some c)
          × (c.spec ≡ config.spec)
          × (c.status ≡ some status)
    unfolding on_tick
    on_tick-reported t sent s {config} held =
        let (patches, status, failures) = reconcile fl t.world config.spec t.now in
        let (c, now_held, kept, written) =
          patch_status-stored laws up status (home.get s).1 (laws.get-stored s ∙ held) in
        rw (up.finds s held) (
          refl,
          (reconcile-patches_reported fl t.world config.spec t.now).0,
          c,
          now_held,
          kept,
          written,
        )
