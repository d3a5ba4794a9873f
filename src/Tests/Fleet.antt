-- ===== src/Tests/Fleet.antt =====
-- Runs of the equalizer.
use emergency_ration_webhook.Common.{
  refl, String, none, some, List, [], ◌∷◌, ◌==ˢ◌, if◌then◌else◌, map, ◌≡◌, arith,
}
use emergency_ration_webhook.Common.Int.{ℤ, pos}
use emergency_ration_webhook.Equalizer.Algorithm.{ClusterResourceObservation, good_budget, equalize}
use emergency_ration_webhook.Equalizer.Algorithm.Budgets.{
  entries, CastsPercents, good_budget-exact, good_budget-wraps, equalize-entries,
}
use emergency_ration_webhook.Common.Result.{ok, err}
use emergency_ration_webhook.Equalizer.Resolve.{ClusterState, over, TargetCluster, World}
use emergency_ration_webhook.Equalizer.Reconcile.{EqualizerConfigSpec, failed_patches, reconcile}
use emergency_ration_webhook.Equalizer.Reconcile.Reported.{
  budgets_of, reported, IsSentTo, reconcile-patches_reported,
}
use emergency_ration_webhook.Common.Lists.{All, AnyOf}
use emergency_ration_webhook.Tests.Samples.{whole, budget, capacity}
use emergency_ration_webhook.Controllers.Singleton.{Api}
use emergency_ration_webhook.Controllers.Singleton.Preservation.{ApiLaws}
use emergency_ration_webhook.Controllers.Singleton.Answering.{IsAnswering}
use emergency_ration_webhook.Equalizer.Reconcile.{EqualizerConfigStatus}
use emergency_ration_webhook.Equalizer.Run.{EqualizerConfig, Tick, on_tick}
use emergency_ration_webhook.Equalizer.Run.Ticks.{on_tick-reported}
use emergency_ration_webhook.Tests.Servers.{server_of, laws_of, laws_of-IsAnswering}

abbrev east : ClusterResourceObservation ℤ
east = record { name = "east"; utilization_percent = pos 90; total_allocatable = pos 1000 }

abbrev west : ClusterResourceObservation ℤ
west = record { name = "west"; utilization_percent = pos 40; total_allocatable = pos 500 }

good_budget-exact_example : good_budget (pos 80) (pos 100) (pos 500) ≡ pos 60
good_budget-exact_example =
    good_budget-exact 80 100 500 (omega arith) (omega arith) (omega arith) (omega arith)

good_budget-wraps_example : good_budget (pos 80) (pos 30000000) (pos 1) ≡ pos 100
good_budget-wraps_example =
    good_budget-wraps 80 30000000 1 (omega arith) (omega arith) (omega arith) (omega arith)
      (omega arith)

equalize-entries_example :
    entries (λ b. b.name ==ˢ "west") (equalize whole (east ∷ west ∷ []) (pos 80)) ≡ 1
equalize-entries_example = equalize-entries whole (east ∷ west ∷ []) (pos 80) (λ n. n ==ˢ "west")

whole_casts : CastsPercents whole
whole_casts = λ x. ground arith

abbrev states : List ClusterState
states = ClusterState.healthy ∷ over ∷ []

abbrev target_of : String → TargetCluster
target_of name = record {
  name = name;
  kubeconfig_secret_ref = record { name = name; key = "kubeconfig"; namespace = "erw" };
}

abbrev fleet : EqualizerConfigSpec
fleet = record {
  cpu_target_budget_percent = pos 80;
  memory_target_budget_percent = pos 70;
  targets = target_of "east" ∷ target_of "west" ∷ [];
}

-- The Secret of the eastern cluster is there, the western one's has no data.
abbrev world : World String ℤ
world = record {
  secret =
      λ ns name. ok (if name ==ˢ "east" then some (("kubeconfig", "server: east") ∷ []) else none);
  client = λ bytes. ok bytes;
  allocation = λ client. ok budget;
  capacity = λ client. ok capacity;
  patch = λ client cpu mem. err "conflict";
}

reconcile-patches_reported_example :
    let (patches, status, failures) = reconcile whole world fleet "now" in
    (map budgets_of patches ≡ reported status.clusters)
    × All (λ p. AnyOf (λ target. IsSentTo world target p) fleet.targets) patches
reconcile-patches_reported_example = reconcile-patches_reported whole world fleet "now"

-- A patch that fails is reported by its cluster.
failed_patches_run :
    failed_patches world (
      record { client = "server: east"; name = "east"; cpu_budget = pos 80; memory_budget = pos 70 }
      ∷ [])
    ≡ ("east", "patching Allocation overrides: conflict") ∷ []
unfolding failed_patches
failed_patches_run = refl

abbrev configs : Api (EqualizerConfig ℤ) (EqualizerConfigStatus ℤ)
configs = server_of (λ t c. record c { status = some t })

abbrev configs_laws : ApiLaws {Spec = EqualizerConfigSpec} configs (λ c. c.spec) (λ c. c.status)
configs_laws =
    laws_of (λ t c. record c { status = some t }) (λ c. c.spec) (λ c. c.status) (λ t o. refl)
      (λ t o. refl)

configs_laws-IsAnswering : IsAnswering configs_laws
configs_laws-IsAnswering =
    laws_of-IsAnswering (λ t c. record c { status = some t }) (λ c. c.spec) (λ c. c.status)
      (λ t o. refl) (λ t o. refl)

abbrev stroke : Tick String ℤ
stroke = record { world = world; now = "now" }

on_tick-reported_example :
    let (patches, status, failures) = reconcile whole world fleet "now" in
    let (sent, server) =
      on_tick whole configs stroke ([], some (record { spec = fleet; status = none })) in
    (sent ≡ patches)
    × (map budgets_of patches ≡ reported status.clusters)
    × (c : EqualizerConfig ℤ) × (server ≡ some c)
    × (c.spec ≡ fleet)
    × (c.status ≡ some status)
on_tick-reported_example =
    on_tick-reported whole configs configs_laws configs_laws-IsAnswering stroke []
      (some (record { spec = fleet; status = none })) refl
