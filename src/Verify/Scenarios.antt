-- ===== src/Verify/Scenarios.antt =====
-- bin/erw-verify/scenarios/mod.rs: the outcomes of the scenarios and their summary.
pub mod Counts
use emergency_ration_webhook.Common.{ℕ, ◌+◌, String, List, [], ◌∷◌, length, ltb, if◌then◌else◌}
use emergency_ration_webhook.Common.Text.{Text}

pub data ScenarioGroup : Type 0 where
  enforcement degradation : ScenarioGroup

-- `ScenarioGroup::as_str`.
abbrev pub group_str : ScenarioGroup → String
group_str enforcement = "enforcement"
group_str degradation = "degradation"

pub data ScenarioStatus : Type 0 where
  pass fail skip : ScenarioStatus

-- `ScenarioStatus::as_str`.
abbrev pub status_str : ScenarioStatus → String
status_str pass = "pass"
status_str fail = "fail"
status_str skip = "skip"

-- The duration is in milliseconds.
pub record ScenarioResult : Type 0 where
  pub id : String
  pub name : String
  pub group : ScenarioGroup
  pub status : ScenarioStatus
  pub duration : ℕ
  pub detail : Text

pub record RunSummary : Type 0 where
  pub total : ℕ
  pub passed : ℕ
  pub failed : ℕ
  pub skipped : ℕ
  pub exit_code : ℕ

-- The three counters of `derive_summary`.
pub record Counters : Type 0 where
  pub passes : ℕ
  pub failures : ℕ
  pub skips : ℕ

abbrev pub tally : ScenarioStatus → Counters → Counters
tally pass c = record c { passes = c.passes + 1 }
tally fail c = record c { failures = c.failures + 1 }
tally skip c = record c { skips = c.skips + 1 }

-- The loop of `derive_summary`.
unfoldable pub count_statuses : Counters → List ScenarioResult → Counters
count_statuses c [] = c
count_statuses c (r ∷ results) = count_statuses (tally r.status c) results

unfoldable pub derive_summary : List ScenarioResult → RunSummary
unfolding count_statuses
derive_summary results =
    let c = count_statuses (record { passes = 0; failures = 0; skips = 0 }) results in
    record {
      total = length results;
      passed = c.passes;
      failed = c.failures;
      skipped = c.skips;
      exit_code = if ltb 0 c.failures then 1 else 0;
    }
