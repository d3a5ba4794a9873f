-- ===== src/Verify/Degradation.antt =====
-- bin/erw-verify/scenarios/degradation.rs: what the degradation scenarios expect and their probing of
-- the admission; Restore has the waits after it, and Sequence the three scenarios. The cluster and the
-- clock are an interface. The loops run on fuel; Probing and Ending show how much is enough.
pub mod Restore
pub mod Sequence
pub mod Classification
pub mod Probing
pub mod Ending
pub mod Verdicts
use emergency_ration_webhook.Common.{
  ℕ, zero, suc, ◌+◌, ◌-◌, String, Option, none, some, List, [], ◌∷◌, ◌++◌, Bool, true, false, ◌&&◌,
  ◌||◌, not, any, is_empty, leb, if◌then◌else◌,
}
use emergency_ration_webhook.Common.Int.{ℤ, pos, ltb_ℤ, leb_ℤ, ◌-ℤ◌}
use emergency_ration_webhook.Common.Result.{Result, ok, err}
use emergency_ration_webhook.Common.Text.{codes, Text, lines, contains}
use emergency_ration_webhook.Common.Word.{saturating_sub}
use emergency_ration_webhook.TimeUtil.{Clock, now_unix, rfc3339_from_unix, parse_rfc3339}
use emergency_ration_webhook.Crd.Allocation.{AllocationStatus, Allocation}
use emergency_ration_webhook.Verify.Setup.{PodStatus, pod_ready}
use emergency_ration_webhook.Verify.Scenarios.{
  ScenarioResult, ScenarioStatus, pass, fail, degradation,
}

-- `kube::Error`: an answer of the API server with its code and message, or something else.
pub data SubmitError : Type 0 where
  api_status : (code : ℕ) (message : Text) → SubmitError
  transport : SubmitError

pub data ProbeKind : Type 0 where
  expected unexpected : ProbeKind

abbrev pub first_line : List Text → Text
first_line [] = codes "(no message)"
first_line (l ∷ ls) = l

unfoldable pub rejection_detail : SubmitError → Option Text
unfolding lines
rejection_detail (api_status code message) = some (first_line (lines message))
rejection_detail transport = none

unfoldable pub expect_unreachable : Text → ProbeKind
expect_unreachable detail = expected

unfoldable pub expect_capacity_unavailable : Text → ProbeKind
expect_capacity_unavailable detail =
    if contains (codes "capacity data unavailable") detail then expected else unexpected

unfoldable pub expect_stale : Text → ProbeKind
expect_stale detail =
    if contains (codes "exceeds") detail || contains (codes "threshold") detail
    then expected
    else unexpected

abbrev pub judge : ProbeKind → Text → Result Text Text
judge expected detail = ok (codes "admission rejected: " ++ detail)
judge unexpected detail = err (codes "rejected, but not for the expected reason: " ++ detail)

-- The match on the detail, at the text of the error.
abbrev pub classify_detail : Text → (Text → ProbeKind) → Option Text → Result Text Text
classify_detail shown classify (some detail) = judge (classify detail) detail
classify_detail shown classify none = err (codes "unexpected non-admission error: " ++ shown)

-- The addresses of each subset of an `Endpoints` object.
abbrev pub Subsets : Type 0
Subsets = Option (List (Option (List Text)))

abbrev has_address : Option (List Text) → Bool
has_address none = false
has_address (some addresses) = not (is_empty addresses)

unfoldable pub endpoints_populated : Subsets → Bool
endpoints_populated none = false
endpoints_populated (some subsets) = any has_address subsets

-- The calls on the cluster, the text of an error, and the clock in milliseconds.
pub record Site (F : Type 0) : Type 1 where
  pub World : Type 0
  pub create_pod : Text → World → Result SubmitError Unit × World
  pub delete_pod : Text → World → Result SubmitError Unit × World
  pub delete_webhook_pods : World → Result SubmitError Unit × World
  pub delete_allocation : World → Result SubmitError Unit × World
  pub delete_capacity : World → Result SubmitError Unit × World
  pub list_pods : World → Result SubmitError (List (Option PodStatus)) × World
  pub get_endpoints : World → Result SubmitError Subsets × World
  pub get_allocation : World → Result SubmitError (Allocation F) × World
  -- `patch_status` with this `lastUpdated`.
  pub patch_last_updated : String → World → Result SubmitError Unit × World
  pub display : SubmitError → Text
  pub now : World → ℕ
  -- The time of day.
  pub wall : World → Clock
  pub sleep : ℕ → World → World

-- `PROBE_WINDOW`, `PROBE_INTERVAL` and `RESTORE_TIMEOUT`.
abbrev pub probe_window : ℕ
probe_window = 30000

abbrev pub probe_interval : ℕ
probe_interval = 500

abbrev pub restore_timeout : ℕ
restore_timeout = 60000

-- `FRESHNESS_THRESHOLD_SECS` and `STALE_BACKDATE_SECS`.
abbrev pub freshness_threshold_secs : ℤ
freshness_threshold_secs = pos 30

abbrev pub stale_backdate_secs : ℤ
stale_backdate_secs = pos 120

module _ {F : Type 0} (site : Site F) where
  open site use {World}

  unfoldable pub classify_rejection : SubmitError → (Text → ProbeKind) → Result Text Text
  unfolding rejection_detail
  classify_rejection e classify = classify_detail (site.display e) classify (rejection_detail e)

  abbrev pub Outcome : Type 0
  Outcome = Option (Result Text Text × World)

  -- One round of the probing, at the answer to the submission.
  abbrev pub after_create :
      Text → (Text → ProbeKind) → Result SubmitError Unit × World → (World → Outcome) → Outcome
  after_create name classify (ok admitted, w) rest =
      rest (site.sleep probe_interval (site.delete_pod name w).1)
  after_create name classify (err e, w) rest = some (classify_rejection e classify, w)

  -- The loop of `probe_rejection`, or nothing where the fuel runs out.
  unfoldable pub probe : ℕ → Text → (Text → ProbeKind) → ℕ → World → Outcome
  probe zero name classify deadline w = none
  probe (suc fuel) name classify deadline w =
      let on =
        after_create name classify (site.create_pod name w) (probe fuel name classify deadline) in
      if leb deadline (site.now w)
      then some (
        err (codes "degradation never took effect: pod was admitted for the whole 30s window"),
        w,
      )
      else on

  unfoldable pub probe_rejection : ℕ → Text → (Text → ProbeKind) → World → Outcome
  unfolding probe
  probe_rejection fuel name classify w = probe fuel name classify (site.now w + probe_window) w
