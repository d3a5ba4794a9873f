-- ===== src/Verify/Enforcement/Sequence.antt =====
-- bin/erw-verify/scenarios/enforcement.rs: the nine scenarios in their order.
use emergency_ration_webhook.Common.{ℕ, ◌-◌, String, Option, none, some, List, [], ◌∷◌}
use emergency_ration_webhook.Common.Float.{Float}
use emergency_ration_webhook.Common.Result.{Result, ok, err}
use emergency_ration_webhook.Common.Task.{Task, Outcome}
use emergency_ration_webhook.Common.Text.{Text}
use emergency_ration_webhook.Verify.Scenarios.{
  ScenarioResult, ScenarioStatus, pass, fail, enforcement,
}
use emergency_ration_webhook.Verify.Enforcement.{Cluster}
use emergency_ration_webhook.Verify.Enforcement.Scenarios.{s1, s2, s3, s4, s5, s6, s9}
use emergency_ration_webhook.Verify.Enforcement.Readings.{s7, s8}

-- A scenario: its id, its name and its body.
pub record Scenario (World : Type 0) : Type 0 where
  pub id : String
  pub name : String
  pub body : Task World Text

abbrev conclude : Result Text Text → ScenarioStatus × Text
conclude (ok detail) = (pass, detail)
conclude (err detail) = (fail, detail)

module _ {F : Type 0} (cluster : Cluster F) where
  open cluster use {World}

  abbrev pub result_of : Scenario World → ℕ → Outcome World Text → Option (ScenarioResult × World)
  result_of scenario start none = none
  result_of scenario start (some (outcome, w)) =
      let (verdict, detail) = conclude outcome in
      some (
        record {
          id = scenario.id;
          name = scenario.name;
          group = enforcement;
          status = verdict;
          duration = cluster.now w - start;
          detail = detail;
        },
        w,
      )

  unfoldable pub timed : Scenario World → World → Option (ScenarioResult × World)
  timed scenario w = result_of scenario (cluster.now w) (scenario.body w)

  abbrev pub Results : Type 0
  Results = Option (List ScenarioResult × World)

  abbrev pub put_first : ScenarioResult → Results → Results
  put_first result none = none
  put_first result (some (results, w)) = some (result ∷ results, w)

  abbrev pub then_all : Option (ScenarioResult × World) → (World → Results) → Results
  then_all none rest = none
  then_all (some (result, w)) rest = put_first result (rest w)

  -- The scenarios one after the other.
  unfoldable pub run_all : List (Scenario World) → World → Results
  unfolding timed
  run_all [] w = some ([], w)
  run_all (scenario ∷ scenarios) w = then_all (timed scenario w) (run_all scenarios)

module _ (fl : Float) (cluster : Cluster fl.F) (debug : Text → Text) where
  abbrev pub scenarios : ℕ → List (Scenario cluster.World)
  scenarios fuel =
      record { id = "S1"; name = "within-budget pod admitted"; body = s1 cluster }
      ∷ record { id = "S2"; name = "over-budget pod denied"; body = s2 cluster }
      ∷ record { id = "S3"; name = "budgetPercent 0 (circuit-breaker)"; body = s3 cluster fuel }
      ∷ record {
        id = "S4";
        name = "budgetPercent 100 (physical overcommit guard)";
        body = s4 cluster fuel;
      }
      ∷ record {
        id = "S5";
        name = "runtime budget adjustment (no restart)";
        body = s5 cluster fuel;
      }
      ∷ record { id = "S6"; name = "dry-run mode (admit + warning)"; body = s6 cluster fuel }
      ∷ record {
        id = "S7";
        name = "capacity tracking accuracy (CRD vs nodes)";
        body = s7 fl cluster;
      }
      ∷ record { id = "S8"; name = "metrics + health endpoints respond"; body = s8 cluster debug }
      ∷ record { id = "S9"; name = "per-resource asymmetric budgets"; body = s9 cluster fuel }
      ∷ []

  unfoldable pub run : ℕ → cluster.World → Results cluster
  unfolding run_all
  run fuel = run_all cluster (scenarios fuel)
