-- ===== src/Verify/Degradation/Sequence.antt =====
-- bin/erw-verify/scenarios/degradation.rs: the scenarios S9, S10 and S11 and their run.
use emergency_ration_webhook.Common.{
  ℕ, zero, suc, ◌+◌, ◌-◌, String, Option, none, some, List, [], ◌∷◌, ◌++◌, leb, if◌then◌else◌,
}
use emergency_ration_webhook.Common.Int.{◌-ℤ◌}
use emergency_ration_webhook.Common.Result.{Result, ok, err}
use emergency_ration_webhook.Common.Text.{codes, Text}
use emergency_ration_webhook.TimeUtil.{now_unix, rfc3339_from_unix}
use emergency_ration_webhook.Verify.Scenarios.{
  ScenarioResult, ScenarioStatus, pass, fail, degradation,
}
use emergency_ration_webhook.Verify.Degradation.{
  SubmitError, Site, restore_timeout, expect_unreachable, expect_capacity_unavailable, expect_stale,
  Outcome, after_create, probe_window, probe_rejection, stale_backdate_secs,
}
use emergency_ration_webhook.Verify.Degradation.Restore.{
  drop_result, await_fresh, restore_readiness,
}

module _ {F : Type 0} (site : Site F) where
  open site use {World}

  -- What S9 and S10 share: the probe's pod is deleted, and the webhook is restored.
  abbrev pub with_world : Result Text Text → Option World → Outcome site
  with_world outcome none = none
  with_world outcome (some w) = some (outcome, w)

  abbrev pub clean_up : ℕ → Text → Outcome site → Outcome site
  clean_up fuel name none = none
  clean_up fuel name (some (outcome, w)) =
      with_world outcome (restore_readiness site fuel (site.delete_pod name w).1)

  -- The match on the deletion in S9.
  abbrev pub after_kill : ℕ → Result SubmitError Unit × World → Outcome site
  after_kill fuel (ok deleted, w) =
      clean_up fuel (codes "erw-verify-s9")
        (probe_rejection site fuel (codes "erw-verify-s9") expect_unreachable w)
  after_kill fuel (err e, w) = some (err (codes "deleting webhook pods: " ++ site.display e), w)

  unfoldable pub s9 : ℕ → World → Outcome site
  unfolding probe_rejection restore_readiness
  s9 fuel w = after_kill fuel (site.delete_webhook_pods w)

  -- `delete_if_present` only logs a failure.
  unfoldable pub s10 : ℕ → World → Outcome site
  unfolding probe_rejection restore_readiness
  s10 fuel w =
      let bare = (site.delete_capacity (site.delete_allocation w).1).1 in
      clean_up fuel (codes "erw-verify-s10")
        (probe_rejection site fuel (codes "erw-verify-s10") expect_capacity_unavailable bare)

  -- `backdate_last_updated`; its error gets its text in the round.
  unfoldable pub backdate_last_updated : World → Result SubmitError Unit × World
  backdate_last_updated w =
      site.patch_last_updated (rfc3339_from_unix (now_unix (site.wall w) -ℤ stale_backdate_secs)) w

  -- One round of S11: the submission, after the backdating.
  abbrev pub after_backdate :
      Result SubmitError Unit × World → (World → Outcome site) → Outcome site
  after_backdate (ok done, w) rest =
      after_create site (codes "erw-verify-s11") expect_stale
        (site.create_pod (codes "erw-verify-s11") w) rest
  after_backdate (err e, w) rest =
      some (err (codes "backdating Allocation lastUpdated: " ++ site.display e), w)

  unfoldable pub probe_stale : ℕ → ℕ → World → Outcome site
  unfolding backdate_last_updated
  probe_stale zero deadline w = none
  probe_stale (suc fuel) deadline w =
      let on = after_backdate (backdate_last_updated w) (probe_stale fuel deadline) in
      if leb deadline (site.now w)
      then some (
        err (codes "capacity data never read as stale: pod was admitted for the whole window"),
        w,
      )
      else on

  abbrev pub clean_up_stale : ℕ → Outcome site → Outcome site
  clean_up_stale fuel none = none
  clean_up_stale fuel (some (outcome, w)) =
      let freed = (site.delete_pod (codes "erw-verify-s11") w).1 in
      with_world outcome
        (drop_result site (await_fresh site fuel (site.now freed + restore_timeout) freed))

  unfoldable pub s11 : ℕ → World → Outcome site
  unfolding probe_stale await_fresh
  s11 fuel w = clean_up_stale fuel (probe_stale fuel (site.now w + probe_window) w)

  abbrev conclude : Result Text Text → ScenarioStatus × Text
  conclude (ok detail) = (pass, detail)
  conclude (err detail) = (fail, detail)

  abbrev pub result_of : String → String → ℕ → Outcome site → Option (ScenarioResult × World)
  result_of id name start none = none
  result_of id name start (some (outcome, w)) =
      let (verdict, detail) = conclude outcome in
      some (
        record {
          id = id;
          name = name;
          group = degradation;
          status = verdict;
          duration = site.now w - start;
          detail = detail;
        },
        w,
      )

  unfoldable pub timed :
      String → String → (World → Outcome site) → World → Option (ScenarioResult × World)
  timed id name body w = result_of id name (site.now w) (body w)

  abbrev pub Results : Type 0
  Results = Option (List ScenarioResult × World)

  abbrev pub add_result : List ScenarioResult → Option (ScenarioResult × World) → Results
  add_result results none = none
  add_result results (some (result, w)) = some (results ++ result ∷ [], w)

  abbrev pub and_run : (World → Option (ScenarioResult × World)) → Results → Results
  and_run body none = none
  and_run body (some (results, w)) = add_result results (body w)

  unfoldable pub run : ℕ → World → Results
  unfolding timed s9 s10 s11
  run fuel w = and_run (timed "S11" "stale capacity → admission rejected" (s11 fuel)) (
      and_run (timed "S10" "CRD instances deleted → admission rejected" (s10 fuel))
        (and_run (timed "S9" "webhook pods killed → admission rejected" (s9 fuel)) (some ([], w))))
