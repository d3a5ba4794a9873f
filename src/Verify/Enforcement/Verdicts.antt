-- ===== src/Verify/Enforcement/Verdicts.antt =====
-- What the run of bin/erw-verify/scenarios/enforcement.rs reports.
use emergency_ration_webhook.Common.{ℕ, String, none, some, List, [], ◌∷◌, map, ◌≡◌, refl}
use emergency_ration_webhook.Common.Float.{Float}
use emergency_ration_webhook.Common.Result.{ok, err}
use emergency_ration_webhook.Common.Task.{Outcome, Ends}
use emergency_ration_webhook.Common.Text.{Text}
use emergency_ration_webhook.Verify.Scenarios.{ScenarioResult, ScenarioStatus, pass, fail, skip}
use emergency_ration_webhook.Verify.Enforcement.{Cluster}
use emergency_ration_webhook.Verify.Enforcement.Sequence.{
  Scenario, result_of, timed, run_all, scenarios, run,
}
use emergency_ration_webhook.Verify.Enforcement.Waiting.{IsTimed, IsThere}
use emergency_ration_webhook.Verify.Enforcement.Ending.{
  s1-Ends, s2-Ends, s3-Ends, s4-Ends, s5-Ends, s6-Ends, s7-Ends, s8-Ends, s9-Ends,
}

-- A scenario passed or failed.
abbrev pub IsVerdict : ScenarioStatus → Type 0
IsVerdict pass = Unit
IsVerdict fail = Unit
IsVerdict skip = ⊥

-- The results have these ids, and none is skipped.
abbrev pub AreVerdicts : List String → List ScenarioResult → Type 0
AreVerdicts [] [] = Unit
AreVerdicts [] (r ∷ results) = ⊥
AreVerdicts (id ∷ ids) [] = ⊥
AreVerdicts (id ∷ ids) (r ∷ results) = (r.id ≡ id) × IsVerdict r.status × AreVerdicts ids results

module _ {F : Type 0} (cluster : Cluster F) where
  open cluster use {World}

  result_of-IsVerdict :
      (scenario : Scenario World) (start : ℕ) (o : Outcome World Text)
      → IsThere o
      → (r : ScenarioResult) × (v : World) × (result_of cluster scenario start o ≡ some (r, v))
        × (r.id ≡ scenario.id)
        × IsVerdict r.status
  result_of-IsVerdict scenario start none h = elim h [ ]
  result_of-IsVerdict scenario start (some (ok detail, w)) h = (_, _, refl, refl, tt)
  result_of-IsVerdict scenario start (some (err detail, w)) h = (_, _, refl, refl, tt)

  abbrev AllEnd : List (Scenario World) → Type 0
  AllEnd [] = Unit
  AllEnd (scenario ∷ rest) = Ends scenario.body × AllEnd rest

  run_all-AreVerdicts :
      (list : List (Scenario World)) (w : World)
      → AllEnd list
      → (results : List ScenarioResult) × (v : World) × (run_all cluster list w ≡ some (results, v))
        × AreVerdicts (map (λ s. s.id) list) results
  unfolding run_all timed
  run_all-AreVerdicts [] w h = ([], w, refl, tt)
  run_all-AreVerdicts (scenario ∷ list) w (h, k) =
      let (r, v, e, same, verdict) =
        result_of-IsVerdict scenario (cluster.now w) (scenario.body w) (h w) in
      let (results, u, f, verdicts) = run_all-AreVerdicts list v k in
      (r ∷ results, u, rw (e, f) refl, (same, verdict, verdicts))

-- Where no call takes negative time and a sleep takes at least its time, the run of the enforcement
-- scenarios ends, each loop within 61 rounds, and gives one result for each of S1 to S9, in this order,
-- none of them skipped.
pub run-AreVerdicts :
    (fl : Float) (cluster : Cluster fl.F) (timely : IsTimed cluster) (debug : Text → Text)
    (w : cluster.World)
    → (results : List ScenarioResult) × (v : cluster.World) × (run fl cluster debug 61 w
        ≡ some (results, v))
      × AreVerdicts ("S1" ∷ "S2" ∷ "S3" ∷ "S4" ∷ "S5" ∷ "S6" ∷ "S7" ∷ "S8" ∷ "S9" ∷ []) results
unfolding run
run-AreVerdicts fl cluster timely debug w =
    run_all-AreVerdicts cluster (scenarios fl cluster debug 61) w (
      s1-Ends cluster timely,
      (
        s2-Ends cluster timely,
        (
          s3-Ends cluster timely,
          (
            s4-Ends cluster timely,
            (
              s5-Ends cluster timely,
              (
                s6-Ends cluster timely,
                (
                  s7-Ends fl cluster timely,
                  (s8-Ends cluster timely debug, (s9-Ends cluster timely, tt)),
                ),
              ),
            ),
          ),
        ),
      ),
    )
