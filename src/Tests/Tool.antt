-- ===== src/Tests/Tool.antt =====
-- Runs of the settings and of the verification tool.
use emergency_ration_webhook.Common.Lists.{All}
use emergency_ration_webhook.Common.{
  ℕ, Option, none, some, List, [], ◌∷◌, ◌+◌, ◌≤◌, true, false, ◌≡◌, refl, arith, leb, if◌then◌else◌,
}
use emergency_ration_webhook.Common.Result.{Result, ok, err}
use emergency_ration_webhook.Common.Text.{codes, Text, same, trim_end}
use emergency_ration_webhook.Config.{cli_value}
use emergency_ration_webhook.Controllers.Singleton.{KubeError, api, is_not_found}
use emergency_ration_webhook.Verify.EnvFile.{lookup, parse_env_file}
use emergency_ration_webhook.Verify.EnvFile.RoundTrip.{
  AreEntries, render, last_value, parse_env_file-render,
}
use emergency_ration_webhook.Verify.Args.{VerifyConfig, from_args_and_env, resolve_bool}
use emergency_ration_webhook.Verify.Scenarios.{derive_summary}
use emergency_ration_webhook.Verify.Run.{Phases, preflight, run_setup, run_scenarios, run, main}
use emergency_ration_webhook.Verify.Run.ExitCodes.{Succeeded, main-Succeeded, main-hidden_registry}
use emergency_ration_webhook.Verify.Teardown.{
  Cluster, delete_and_wait, try_delete, delete_all, targets, teardown,
}
use emergency_ration_webhook.Verify.Teardown.Polling.{IsTimed, Ends, teardown-Ends}
use emergency_ration_webhook.Verify.Teardown.Removal.{IsTruthful, teardown-Gone}
use emergency_ration_webhook.Common.Int.{ℤ}
use emergency_ration_webhook.Verify.Setup.{PodStatus, Site}
use emergency_ration_webhook.Verify.Setup.Readiness as Readiness
use emergency_ration_webhook.Tests.Samples.{budget}

abbrev entries : List (Text × Text)
entries =
    (codes "TAG", codes "v1")
    ∷ (codes "IMAGE", codes " a = \"b\" ")
    ∷ (codes "TAG", codes "v2")
    ∷ []

entries-AreEntries : AreEntries entries
unfolding trim_end
entries-AreEntries = (
  (refl, refl, refl, refl, refl),
  refl,
  ((refl, refl, refl, refl, refl), refl, ((refl, refl, refl, refl, refl), refl, tt)),
)

parse_env_file-render_example :
    lookup (codes "TAG") (parse_env_file (render entries)) ≡ last_value (codes "TAG") entries
parse_env_file-render_example = parse_env_file-render entries (codes "TAG") entries-AreEntries

abbrev line : List Text
line = codes "--json" ∷ codes "--port" ∷ codes "80" ∷ []

-- A tool whose phases all succeed, in a world that counts them.
abbrev smooth : Phases
smooth = record {
  World = ℕ;
  docker_available = λ w. (true, w + 1);
  build_image = λ _ w. (ok tt, w + 1);
  push_image = λ _ w. (ok tt, w + 1);
  build_client = λ _ w. (ok (codes "https://cluster"), w + 1);
  check_cluster_clean = λ w. (ok tt, w + 1);
  create_tls_secret = λ w. (ok (codes "pem"), w + 1);
  apply_manifests = λ _ w. (ok tt, w + 1);
  inject_ca_bundle = λ _ w. (ok tt, w + 1);
  wait_for_readiness = λ _ w. (ok tt, w + 1);
  enforcement_run = λ w. ([], w + 1);
  degradation_run = λ w. ([], w + 1);
  teardown = λ w. (ok tt, w + 1);
}

abbrev plain_config : VerifyConfig
plain_config = record {
  kubeconfig = none;
  json = false;
  keep_on_failure = false;
  timeout_secs = 120;
  registry = some (codes "registry.example");
  image_name = codes "webhook";
  image_tag = codes "latest";
  skip_build = false;
}

succeeds : ((main smooth plain_config 0).0).0 ≡ 0
unfolding main preflight run run_setup run_scenarios derive_summary
succeeds = refl

main-Succeeded_example :
    Succeeded smooth ((main smooth plain_config 0).0).1 (main smooth plain_config 0).1
main-Succeeded_example = main-Succeeded smooth plain_config 0 succeeds

-- The environment names a registry, and the `.env` file has the key without a value.
abbrev ambient : Text → Option Text
ambient name = if same name (codes "ERW_REGISTRY") then some (codes "registry.example") else none

abbrev env_file : List (Text × Text)
env_file = (codes "ERW_REGISTRY", []) ∷ []

main-hidden_registry_example :
    main smooth (from_args_and_env [] env_file ambient) 0 ≡ ((4, none), 0)
unfolding from_args_and_env resolve_bool cli_value lookup
main-hidden_registry_example = main-hidden_registry smooth [] env_file ambient 0 refl refl refl

-- A cluster whose objects are gone from the third second on; its world is the clock.
abbrev seen : ℕ → Result KubeError Unit
seen w = if leb 3000 w then err (api 404) else ok tt

abbrev slow : Cluster
slow = record {
  World = ℕ;
  delete = λ t w. (ok tt, w);
  get = λ t w. (seen w, w);
  display = λ e. codes "error";
  now = λ w. w;
  sleep = λ ms w. w + ms;
}

slow-IsTimed : IsTimed slow
slow-IsTimed = record { get-now = λ t w. omega arith; sleep-now = λ ms w. omega arith }

seen-late : (w : ℕ) {e : KubeError} → seen w ≡ err e → 3000 ≤ w
seen-late w h = ground arith

slow-IsTruthful : IsTruthful slow
slow-IsTruthful = record {
  Gone = λ t w. 3000 ≤ w;
  delete-Gone = λ t w h g. cc;
  get-Gone = λ t w h g. seen-late w h;
  delete-stays = λ t u w g. g;
  get-stays = λ t u w g. g;
  sleep-stays = λ t ms w g. omega arith;
}

teardown-Ends_example : Ends (teardown slow 91 0)
teardown-Ends_example = teardown-Ends slow slow-IsTimed 0

torn_down : teardown slow 91 0 ≡ some (ok tt, 4000)
unfolding teardown delete_all try_delete delete_and_wait is_not_found
torn_down = refl

teardown-Gone_example : All (λ t. 3000 ≤ 4000) targets
unfolding slow-IsTruthful
teardown-Gone_example = teardown-Gone slow slow-IsTruthful 91 0 4000 torn_down

-- A site whose single pod is ready from the second second on, under a known ceiling.
abbrev pod_at : ℕ → Option PodStatus
pod_at w = some (record {
  phase = some (if leb 2000 w then "Running" else "Pending");
  container_statuses = some (true ∷ []);
})

abbrev site : Site ℤ
site = record {
  World = ℕ;
  list_pods = λ w. (ok (pod_at w ∷ []), w);
  get_allocation = λ w. (ok budget, w);
  now = λ w. w;
  sleep = λ ms w. w + ms;
}

site-IsTimed : Readiness.IsTimed site
site-IsTimed = record {
  list-now = λ w. omega arith;
  get-now = λ w. omega arith;
  sleep-now = λ ms w. omega arith;
}
