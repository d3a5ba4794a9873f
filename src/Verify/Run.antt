-- ===== src/Verify/Run.antt =====
-- bin/erw-verify/main.rs: the run of the verification tool and its exit code. Docker, the cluster, the
-- scenarios and the teardown are an interface that reads and changes a world; logging and the times
-- in the report are left out. bin/erw-verify/image.rs gives the name of the image.
pub mod ExitCodes
use emergency_ration_webhook.Common.{
  ℕ, Option, none, some, List, ◌++◌, Bool, true, false, ◌&&◌, not, any, ltb, if◌then◌else◌,
}
use mathlib.Core.Option
use emergency_ration_webhook.Common.Result.{Result, ok, err}
use emergency_ration_webhook.Common.Text.{codes, Text}
use emergency_ration_webhook.Verify.Args.{VerifyConfig}
use emergency_ration_webhook.Verify.Scenarios.{ScenarioResult, RunSummary, derive_summary}
use emergency_ration_webhook.Verify.Scenarios.Counts.{is_fail}

-- The error of every phase is its message.
pub record Phases : Type 1 where
  pub World : Type 0
  pub docker_available : World → Bool × World
  pub build_image : Text → World → Result Text Unit × World
  pub push_image : Text → World → Result Text Unit × World
  -- `build_client` returns the URL of the cluster.
  pub build_client : Option Text → World → Result Text Text × World
  pub check_cluster_clean : World → Result Text Unit × World
  -- `create_tls_secret` returns the certificate.
  pub create_tls_secret : World → Result Text Text × World
  pub apply_manifests : Option Text → World → Result Text Unit × World
  pub inject_ca_bundle : Text → World → Result Text Unit × World
  pub wait_for_readiness : ℕ → World → Result Text Unit × World
  pub enforcement_run : World → List ScenarioResult × World
  pub degradation_run : World → List ScenarioResult × World
  pub teardown : World → Result Text Unit × World

-- `fully_qualified_image`.
unfoldable pub fully_qualified_image : Text → Text → Text → Text
fully_qualified_image registry image tag = registry ++ codes "/" ++ image ++ codes ":" ++ tag

pub record ReportData : Type 0 where
  pub results : List ScenarioResult
  pub teardown_failed : Bool
  pub cluster_url : Text

module _ (phases : Phases) where
  open phases use {World, teardown}

  abbrev pub Action : Type 0 → Type 0
  Action A = World → Result Text A × World

  -- The operator `?` at an action.
  abbrev pub chain : {A B : Type 0} → Result Text A × World → (A → Action B) → Result Text B × World
  chain (ok a, w) k = k a w
  chain (err e, w) k = (err e, w)

  abbrev pub image_ref : VerifyConfig → Option Text
  image_ref config =
      Option.map (λ r. fully_qualified_image r config.image_name config.image_tag) config.registry

  abbrev missing_registry : Text
  missing_registry =
      codes
        "Missing required configuration: ERW_REGISTRY. Copy .env.example to .env and fill in your values."

  abbrev missing_docker : Text
  missing_docker = codes "docker not found on PATH. Install Docker or use --skip-build."

  -- The check of docker, at a registry that is there.
  abbrev pub check_docker : Option Text → Bool × World → Result Text (Option Text) × World
  check_docker image (true, w) = (ok image, w)
  check_docker image (false, w) = (err missing_docker, w)

  abbrev pub check_registry : Option Text → Action (Option Text)
  check_registry none w = (err missing_registry, w)
  check_registry (some image) w = check_docker (some image) (phases.docker_available w)

  unfoldable pub preflight : VerifyConfig → Action (Option Text)
  unfolding fully_qualified_image
  preflight config w =
      if config.skip_build then (ok (image_ref config), w) else check_registry (image_ref config) w

  -- The build and the push of the image.
  abbrev pub build_and_push : Option Text → Action Unit
  build_and_push none w =
      (err (codes "internal error: build phase started without a resolved image reference"), w)
  build_and_push (some image) w = chain (phases.build_image image w) (λ _. phases.push_image image)

  abbrev pub build_phase : VerifyConfig → Option Text → Action Unit
  build_phase config image w = if config.skip_build then (ok tt, w) else build_and_push image w

  unfoldable pub run_setup : ℕ → Option Text → Action Unit
  run_setup timeout_secs image w = chain (phases.create_tls_secret w) (λ cert. λ w₁.
      chain (phases.apply_manifests image w₁) (λ _. λ w₂.
        chain (phases.inject_ca_bundle cert w₂) (λ _. phases.wait_for_readiness timeout_secs)))

  abbrev pub any_failed : List ScenarioResult → Bool
  any_failed results = any (λ r. is_fail r.status) results

  abbrev pub did_fail : Result Text Unit → Bool
  did_fail (ok done) = false
  did_fail (err e) = true

  -- From the scenarios to the end of `run`.
  abbrev pub conclude : VerifyConfig → Text → List ScenarioResult → World → ReportData × World
  conclude config url results w =
      if config.keep_on_failure && any_failed results
      then (record { results = results; teardown_failed = false; cluster_url = url }, w)
      else (
        record { results = results; teardown_failed = did_fail (teardown w).0; cluster_url = url },
        (teardown w).1,
      )

  unfoldable pub run_scenarios : VerifyConfig → Text → Action ReportData
  run_scenarios config url w =
      let (first, w₁) = phases.enforcement_run w in
      let (second, w₂) = phases.degradation_run w₁ in
      let (report, w₃) = conclude config url (first ++ second) w₂ in (ok report, w₃)

  -- The match on the setup.
  abbrev pub after_setup :
      VerifyConfig → Text → Result Text Unit × World → Result Text ReportData × World
  after_setup config url (ok done, w) = run_scenarios config url w
  after_setup config url (err message, w) =
      (err message, (if config.keep_on_failure then w else (teardown w).1))

  unfoldable pub run : VerifyConfig → Option Text → Action ReportData
  run config image w = chain (build_phase config image w) (λ _. λ w₁.
      chain (phases.build_client config.kubeconfig w₁) (λ url. λ w₂.
        chain (phases.check_cluster_clean w₂)
          (λ _. λ w₃. after_setup config url (run_setup config.timeout_secs image w₃))))

  -- The exit code, and the report that is printed if there is one.
  abbrev pub Ending : Type 0
  Ending = ℕ × Option (ReportData × RunSummary)

  abbrev pub final_code : ReportData → RunSummary → ℕ
  final_code report summary =
      if ltb 0 summary.failed then 1 else if report.teardown_failed then 3 else 0

  abbrev pub ending_of : Result Text ReportData × World → Ending × World
  ending_of (err message, w) = ((2, none), w)
  ending_of (ok report, w) =
      let summary = derive_summary report.results in
      let code = final_code report summary in
      ((code, some (report, record summary { exit_code = code })), w)

  abbrev pub after_preflight : VerifyConfig → Result Text (Option Text) × World → Ending × World
  after_preflight config (err message, w) = ((4, none), w)
  after_preflight config (ok image, w) = ending_of (run config image w)

  -- `main`, from the resolved configuration on.
  unfoldable pub main : VerifyConfig → World → Ending × World
  main config w = after_preflight config (preflight config w)
