-- ===== src/Equalizer/Run.antt =====
-- bin/capacity-equalizer/main.rs: the loop of the equalizer. The home cluster's config is behind the
-- interface of a singleton; the patches sent to the targets are kept as a list.
pub mod Ticks
use mathlib.Core.Option
use emergency_ration_webhook.Common.{
  ℕ, String, Option, none, some, List, [], ◌∷◌, ◌++◌, leb, if◌then◌else◌,
}
use emergency_ration_webhook.Common.Result.{Result, ok, err, and_then, unwrap_or}
use emergency_ration_webhook.Common.Float.{Float}
use emergency_ration_webhook.Common.Text.{Text, parse_unsigned}
use emergency_ration_webhook.Controllers.Singleton.{KubeError, Api}
use emergency_ration_webhook.Equalizer.Resolve.{World}
use emergency_ration_webhook.Equalizer.Reconcile.{
  EqualizerConfigSpec, EqualizerConfigStatus, Patch, reconcile,
}

-- The resource `EqualizerConfig` of equalizer/crd.rs.
pub record EqualizerConfig (F : Type 0) : Type 0 where
  pub spec : EqualizerConfigSpec
  pub status : Option (EqualizerConfigStatus F)

abbrev positive : ℕ → Option ℕ
positive secs = if leb 1 secs then some secs else none

-- `reconcile_interval_secs`, at the variable's value.
unfoldable pub reconcile_interval_secs : Option Text → ℕ
reconcile_interval_secs variable =
    unwrap_or (and_then (and_then variable (parse_unsigned 18446744073709551615)) positive) 10

-- What a tick meets: the targets as they then answer, and the clock.
pub record Tick (C F : Type 0) : Type 0 where
  pub world : World C F
  pub now : String

-- The patches sent so far, and the home cluster.
abbrev pub State : Type 0 → Type 0 → Type 0
State C Server = List (Patch C) × Server

module _ {C : Type 0} (fl : Float)
    (home : Api (EqualizerConfig fl.F) (EqualizerConfigStatus fl.F)) where
  -- The match on the read config.
  abbrev pub after_get :
      Tick C fl.F
      → List (Patch C)
      → Result KubeError (EqualizerConfig fl.F) × home.Server
      → State C home.Server
  after_get t sent (ok config, s) =
      let (patches, status, failures) = reconcile fl t.world config.spec t.now in
      (sent ++ patches, (home.patch_status status s).1)
  after_get t sent (err e, s) = (sent, s)

  -- One round of the loop of `main`.
  unfoldable pub on_tick : Tick C fl.F → State C home.Server → State C home.Server
  on_tick t (sent, s) = after_get t sent (home.get s)

  unfoldable pub loop : List (Tick C fl.F) → State C home.Server → State C home.Server
  loop [] state = state
  loop (t ∷ ts) state = loop ts (on_tick t state)
