-- ===== src/Verify/Setup.antt =====
-- bin/erw-verify/setup.rs: the wait for readiness. The cluster and the clock are an interface. Each of
-- the two loops runs on fuel; Readiness shows that one round for each second of the timeout, and one
-- more, are enough.
pub mod Readiness
use emergency_ration_webhook.Common.{
  ℕ, zero, suc, ◌+◌, ◌*◌, String, Option, none, some, List, [], ◌∷◌, Bool, true, false, ◌&&◌, not,
  all, is_empty, leb, ◌==ˢ◌, if◌then◌else◌,
}
use emergency_ration_webhook.Common.Int.{ℤ, pos, ltb_ℤ}
use emergency_ration_webhook.Common.Result.{Result, ok, err, is_some_and}
use emergency_ration_webhook.Common.Text.{codes, Text}
use emergency_ration_webhook.Crd.Allocation.{AllocationStatus, Allocation}
use emergency_ration_webhook.Controllers.Singleton.{KubeError}

-- A pod's status, with the readiness of each container.
pub record PodStatus : Type 0 where
  pub phase : Option String
  pub container_statuses : Option (List Bool)

abbrev all_ready : List Bool → Bool
all_ready cs = not (is_empty cs) && all (λ ready. ready) cs

unfoldable pub pod_ready : Option PodStatus → Bool
pod_ready none = false
pod_ready (some status) =
    is_some_and status.phase (λ p. p ==ˢ "Running")
    && is_some_and status.container_statuses all_ready

-- `Api::list` at the webhook's pods, `Api::get` at the allocation, and tokio's clock in milliseconds.
pub record Site (F : Type 0) : Type 1 where
  pub World : Type 0
  pub list_pods : World → Result Text (List (Option PodStatus)) × World
  pub get_allocation : World → Result KubeError (Allocation F) × World
  pub now : World → ℕ
  pub sleep : ℕ → World → World

module _ {F : Type 0} (site : Site F) where
  open site use {World}

  abbrev pub Outcome : Type 0
  Outcome = Option (Result Text Unit × World)

  -- The test of the second loop.
  abbrev status_known : Option (AllocationStatus F) → Bool
  status_known none = false
  status_known (some status) = ltb_ℤ (pos 0) status.ceiling_cpu_milli

  abbrev pub is_known : Result KubeError (Allocation F) → Bool
  is_known (ok allocation) = status_known allocation.status
  is_known (err e) = false

  -- One round of the second loop, at the answer of `get`.
  abbrev pub after_read : Result KubeError (Allocation F) × World → (World → Outcome) → Outcome
  after_read (answer, w) rest =
      if is_known answer then some (ok tt, w) else rest (site.sleep 2000 w)

  unfoldable pub wait_for_ceiling : ℕ → ℕ → World → Outcome
  wait_for_ceiling zero deadline w = none
  wait_for_ceiling (suc fuel) deadline w =
      let on = after_read (site.get_allocation w) (wait_for_ceiling fuel deadline) in
      if leb deadline (site.now w)
      then some (
        err (
            codes "readiness timeout: Allocation ceiling never became non-zero within the timeout"),
        w,
      )
      else on

  abbrev pub are_ready : List (Option PodStatus) → Bool
  are_ready items = not (is_empty items) && all pod_ready items

  -- One round of the first loop, at the answer of `list`; `next` is what follows the loop.
  abbrev pub after_list :
      Result Text (List (Option PodStatus)) × World
      → (World → Outcome)
      → (World → Outcome)
      → Outcome
  after_list (ok items, w) next rest = if are_ready items then next w else rest (site.sleep 2000 w)
  after_list (err e, w) next rest = some (err e, w)

  unfoldable pub wait_for_pods : ℕ → ℕ → (World → Outcome) → World → Outcome
  wait_for_pods zero deadline next w = none
  wait_for_pods (suc fuel) deadline next w =
      let on = after_list (site.list_pods w) next (wait_for_pods fuel deadline next) in
      if leb deadline (site.now w)
      then some
          (err (codes "readiness timeout: webhook pods never reached Ready within the timeout"), w)
      else on

  -- `wait_for_readiness` with this much fuel for each loop.
  unfoldable pub wait_for_readiness : ℕ → ℕ → World → Outcome
  unfolding wait_for_pods wait_for_ceiling
  wait_for_readiness fuel timeout_secs w =
      let deadline = site.now w + timeout_secs * 1000 in
      wait_for_pods fuel deadline (wait_for_ceiling fuel deadline) w
