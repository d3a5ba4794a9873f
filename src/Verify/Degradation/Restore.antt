-- ===== src/Verify/Degradation/Restore.antt =====
-- bin/erw-verify/scenarios/degradation.rs: the waits that restore the webhook's health.
use emergency_ration_webhook.Common.{
  ℕ, zero, suc, ◌+◌, Option, none, some, List, Bool, false, ◌&&◌, any, leb, if◌then◌else◌,
}
use emergency_ration_webhook.Common.Int.{ℤ, pos, ltb_ℤ, leb_ℤ}
use emergency_ration_webhook.Common.Word.{saturating_sub}
use emergency_ration_webhook.Common.Result.{Result, ok, err}
use emergency_ration_webhook.Common.Text.{codes, Text}
use emergency_ration_webhook.TimeUtil.{now_unix, parse_rfc3339}
use emergency_ration_webhook.Crd.Allocation.{AllocationStatus, Allocation}
use emergency_ration_webhook.Verify.Setup.{PodStatus, pod_ready}
use emergency_ration_webhook.Verify.Degradation.{
  SubmitError, Subsets, endpoints_populated, Site, restore_timeout, freshness_threshold_secs,
}

module _ {F : Type 0} (site : Site F) where
  open site use {World}

  abbrev positive_ceiling : Option (AllocationStatus F) → Bool
  positive_ceiling none = false
  positive_ceiling (some status) = ltb_ℤ (pos 0) status.ceiling_cpu_milli

  abbrev is_supplied : Result SubmitError (Allocation F) → Bool
  is_supplied (ok allocation) = positive_ceiling allocation.status
  is_supplied (err e) = false

  abbrev any_ready : Result SubmitError (List (Option PodStatus)) → Bool
  any_ready (ok items) = any pod_ready items
  any_ready (err e) = false

  abbrev are_populated : Result SubmitError Subsets → Bool
  are_populated (ok subsets) = endpoints_populated subsets
  are_populated (err e) = false

  -- The condition of one round: the allocation is read only where pods and endpoints are ready.
  unfoldable pub is_healthy : World → Bool × World
  unfolding endpoints_populated
  is_healthy w =
      let pods = site.list_pods w in
      let endpoints = site.get_endpoints pods.1 in
      let allocation = site.get_allocation endpoints.1 in
      if any_ready pods.0 && are_populated endpoints.0
      then (is_supplied allocation.0, allocation.1)
      else (false, endpoints.1)

  abbrev pub Wait : Type 0
  Wait = Option (Result Text Unit × World)

  abbrev pub after_check : Bool × World → (World → Wait) → Wait
  after_check (healthy, w) rest = if healthy then some (ok tt, w) else rest (site.sleep 2000 w)

  -- The loop of `wait_for_readiness`, or nothing where the fuel runs out.
  unfoldable pub await_health : ℕ → ℕ → World → Wait
  await_health zero deadline w = none
  await_health (suc fuel) deadline w =
      let on = after_check (is_healthy w) (await_health fuel deadline) in
      if leb deadline (site.now w)
      then some
          (err (codes "webhook did not return to Ready + non-zero ceiling + ready endpoints"), w)
      else on

  abbrev pub drop_result : Wait → Option World
  drop_result none = none
  drop_result (some (result, v)) = some v

  -- An error of the wait is logged only.
  unfoldable pub restore_readiness : ℕ → World → Option World
  unfolding await_health
  restore_readiness fuel w = drop_result (await_health fuel (site.now w + restore_timeout) w)

  abbrev is_recent : Option ℤ → World → Bool
  is_recent none w = false
  is_recent (some refreshed) w =
      leb_ℤ (saturating_sub (now_unix (site.wall w)) refreshed) freshness_threshold_secs

  abbrev status_is_fresh : Option (AllocationStatus F) → World → Bool
  status_is_fresh none w = false
  status_is_fresh (some status) w = is_recent (parse_rfc3339 status.last_updated) w

  -- The condition of one round, at the answer of `get`.
  abbrev pub is_fresh : Result SubmitError (Allocation F) × World → Bool × World
  is_fresh (ok allocation, w) = (status_is_fresh allocation.status w, w)
  is_fresh (err e, w) = (false, w)

  -- The loop of `wait_for_fresh_last_updated`.
  unfoldable pub await_fresh : ℕ → ℕ → World → Wait
  await_fresh zero deadline w = none
  await_fresh (suc fuel) deadline w =
      let on = after_check (is_fresh (site.get_allocation w)) (await_fresh fuel deadline) in
      if leb deadline (site.now w)
      then some (err (codes "Allocation lastUpdated never became fresh"), w)
      else on
