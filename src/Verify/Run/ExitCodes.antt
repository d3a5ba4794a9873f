-- ===== src/Verify/Run/ExitCodes.antt =====
-- What the exit code of bin/erw-verify/main.rs says of the run.
use emergency_ration_webhook.Common.{
  Option, none, some, List, [], ◌++◌, true, false, ◌&&◌, Bool-cases, ◌≡◌, ◌⊎◌, inl, inr, ◌∙◌, refl,
  sym, arith,
}
use emergency_ration_webhook.Common.Result.{Result, ok, err}
use emergency_ration_webhook.Common.Text.{codes, Text}
use emergency_ration_webhook.Verify.Args.{VerifyConfig, from_args_and_env}
use emergency_ration_webhook.Verify.Args.Fallback.{resolve_raw-hides}
use emergency_ration_webhook.Verify.EnvFile.{EnvMap, lookup}
use emergency_ration_webhook.Config.{cli_value}
use emergency_ration_webhook.Verify.Scenarios.{ScenarioResult, RunSummary, derive_summary}
use emergency_ration_webhook.Verify.Scenarios.Counts.{any-is_fail, derive_summary-exact}
use emergency_ration_webhook.Verify.Run.{
  Phases, ReportData, Action, chain, any_failed, did_fail, conclude, run_scenarios, after_setup,
  run_setup, run, ending_of, final_code, after_preflight, preflight, build_phase, main,
}

module _ (phases : Phases) where
  open phases use {World, teardown}

  -- A report is made after a teardown, or where a scenario failed and the installation is kept.
  abbrev Concluded : ReportData → World → Type 0
  Concluded report w =
      (any_failed phases report.results ≡ true)
      ⊎ ((v : World) × (report.teardown_failed ≡ did_fail phases (teardown v).0)
          × ((teardown v).1 ≡ w))

  abbrev IsSound : Result Text ReportData × World → Type 0
  IsSound (ok report, w) = Concluded report w
  IsSound (err e, w) = Unit

  chain-IsSound :
      {A : Type 0} (m : Result Text A × World) (k : A → Action phases ReportData)
      → ((a : A) (w : World) → IsSound (k a w))
      → IsSound (chain phases m k)
  chain-IsSound (ok a, w) k h = h a w
  chain-IsSound (err e, w) k h = tt

  conclude-Concluded :
      (config : VerifyConfig) (url : Text) (results : List ScenarioResult) (w : World)
      → Concluded (conclude phases config url results w).0 (conclude phases config url results w).1
  conclude-Concluded config url results w =
      elim (Bool-cases (config.keep_on_failure && any_failed phases results)) [
        | inl e ↦ rw e (inl (ground arith))
        | inr e ↦ rw e (inr (w, refl, refl))
      ]

  run_scenarios-IsSound :
      (config : VerifyConfig) (url : Text) (w : World) → IsSound (run_scenarios phases config url w)
  unfolding run_scenarios
  run_scenarios-IsSound config url w =
      let (first, w₁) = phases.enforcement_run w in
      let (second, w₂) = phases.degradation_run w₁ in
      conclude-Concluded config url (first ++ second) w₂

  after_setup-IsSound :
      (config : VerifyConfig) (url : Text) (m : Result Text Unit × World)
      → IsSound (after_setup phases config url m)
  after_setup-IsSound config url (ok done, w) = run_scenarios-IsSound config url w
  after_setup-IsSound config url (err e, w) = tt

  run-IsSound :
      (config : VerifyConfig) (image : Option Text) (w : World)
      → IsSound (run phases config image w)
  unfolding run
  run-IsSound config image w = chain-IsSound (build_phase phases config image w) _ (λ _ w₁.
      chain-IsSound (phases.build_client config.kubeconfig w₁) _ (λ url w₂.
        chain-IsSound (phases.check_cluster_clean w₂) _
          (λ _ w₃. after_setup-IsSound config url (run_setup phases config.timeout_secs image w₃))))

  -- What the exit code 0 says at the end of the run.
  abbrev pub Succeeded : Option (ReportData × RunSummary) → World → Type 0
  Succeeded none w = ⊥
  Succeeded (some (report, summary)) w =
      (any_failed phases report.results ≡ false)
      × ((v : World) × ((teardown v).0 ≡ ok tt) × ((teardown v).1 ≡ w))

  done : (r : Result Text Unit) → did_fail phases r ≡ false → r ≡ ok tt
  done (ok tt) h = refl
  done (err e) h = cc

  final_code_0 :
      (report : ReportData)
      → final_code phases report (derive_summary report.results) ≡ 0
      → (any_failed phases report.results ≡ false) × (report.teardown_failed ≡ false)
  final_code_0 report h =
      let (_, failures, _, _, _) = derive_summary-exact report.results in
      ground (arith, failures, any-is_fail report.results)

  ending_of-Succeeded :
      (m : Result Text ReportData × World)
      → IsSound m
      → ((ending_of phases m).0).0 ≡ 0
      → Succeeded ((ending_of phases m).0).1 (ending_of phases m).1
  ending_of-Succeeded (err e, w) s h = ground arith
  ending_of-Succeeded (ok report, w) s h =
      let (clean, torn_down) = final_code_0 report h in
      elim s [
        | inl dirty ↦ cc
        | inr (v, answer, last) ↦ (clean, (v, done (teardown v).0 (sym answer ∙ torn_down), last))
      ]

  after_preflight-Succeeded :
      (config : VerifyConfig) (m : Result Text (Option Text) × World)
      → ((after_preflight phases config m).0).0 ≡ 0
      → Succeeded ((after_preflight phases config m).0).1 (after_preflight phases config m).1
  after_preflight-Succeeded config (err e, w) h = ground arith
  after_preflight-Succeeded config (ok image, w) h =
      ending_of-Succeeded (run phases config image w) (run-IsSound config image w) h

  -- The exit code 0 says that a report was made in which no scenario failed, and that the last thing
  -- the run did was a teardown that succeeded.
  pub main-Succeeded :
      (config : VerifyConfig) (w : World)
      → ((main phases config w).0).0 ≡ 0
      → Succeeded ((main phases config w).0).1 (main phases config w).1
  unfolding main
  main-Succeeded config w h = after_preflight-Succeeded config (preflight phases config w) h

  -- Where the configuration skips no build, the `.env` file gives ERW_REGISTRY the empty value and the
  -- command line gives `--registry` none, the run ends with code 4, without a report and at the world
  -- where it began: whatever registry the environment holds is not consulted.
  pub main-hidden_registry :
      (args : List Text) (env_file : EnvMap) (env_var : Text → Option Text) (w : World)
      → (from_args_and_env args env_file env_var).skip_build ≡ false
      → cli_value args (codes "--registry") ≡ none
      → lookup (codes "ERW_REGISTRY") env_file ≡ some []
      → main phases (from_args_and_env args env_file env_var) w ≡ ((4, none), w)
  unfolding main preflight from_args_and_env
  main-hidden_registry args env_file env_var w build no_flag empty =
      let hidden =
        resolve_raw-hides args (codes "--registry") (codes "ERW_REGISTRY") env_file env_var no_flag
          empty in
      rw (build, hidden) refl
