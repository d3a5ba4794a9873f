-- ===== src/Equalizer/Reconcile/Condition.antt =====
-- What the fleet condition of equalizer/crd.rs says of the clusters.
use emergency_ration_webhook.Common.{List, [], ◌∷◌, true, false, any, All, ◌≡◌, ◌↔◌, ◌⊎◌, arith}
use emergency_ration_webhook.Common.Lists.{AnyOf}
use emergency_ration_webhook.Equalizer.Resolve.{ClusterState, over, unreachable, config_error}
use emergency_ration_webhook.Equalizer.Reconcile.{
  FleetCondition, compensating, degraded, is_lost, is_over, fleet_condition,
}

-- A cluster that was not reached.
abbrev pub IsLost : ClusterState → Type 0
IsLost s = (s ≡ unreachable) ⊎ (s ≡ config_error)

is_lost_iff : (s : ClusterState) → (is_lost s ≡ true) ↔ IsLost s
is_lost_iff s = ground arith

is_over_iff : (s : ClusterState) → (is_over s ≡ true) ↔ (s ≡ over)
is_over_iff s = ground arith

any-IsLost_iff : (ss : List ClusterState) → (any is_lost ss ≡ true) ↔ AnyOf IsLost ss
any-IsLost_iff [] = ground arith
any-IsLost_iff (s ∷ ss) = ground (arith, is_lost_iff s, any-IsLost_iff ss)

any_over_iff : (ss : List ClusterState) → (any is_over ss ≡ true) ↔ AnyOf (λ s. s ≡ over) ss
any_over_iff [] = ground arith
any_over_iff (s ∷ ss) = ground (arith, is_over_iff s, any_over_iff ss)

All-healthy_iff :
    (ss : List ClusterState)
    → ((any is_lost ss ≡ false) × (any is_over ss ≡ false)) ↔ All (λ s. s ≡ ClusterState.healthy) ss
All-healthy_iff [] = ground arith
All-healthy_iff (s ∷ ss) = ground (arith, All-healthy_iff ss)

-- The fleet is degraded exactly when some cluster is unreachable or in config error, compensating
-- exactly when none is and some cluster is over, and healthy exactly when every cluster is healthy.
pub fleet_condition-exact :
    (states : List ClusterState)
    → ((fleet_condition states ≡ degraded) ↔ AnyOf IsLost states)
      × ((fleet_condition states ≡ compensating)
          ↔ (¬ AnyOf IsLost states × AnyOf (λ s. s ≡ over) states))
      × ((fleet_condition states ≡ FleetCondition.healthy)
          ↔ All (λ s. s ≡ ClusterState.healthy) states)
unfolding fleet_condition
fleet_condition-exact states =
    ground (arith, any-IsLost_iff states, any_over_iff states, All-healthy_iff states)
