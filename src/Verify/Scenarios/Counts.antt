-- ===== src/Verify/Scenarios/Counts.antt =====
-- What the summary of bin/erw-verify/scenarios/mod.rs counts.
use emergency_ration_webhook.Common.{
  ℕ, ◌+◌, List, [], ◌∷◌, Bool, true, false, any, length, ◌≡◌, arith, ltb, if◌then◌else◌, refl,
}
use emergency_ration_webhook.Verify.Scenarios.{
  ScenarioStatus, pass, fail, skip, ScenarioResult, Counters, count_statuses, derive_summary, tally,
}

abbrev pub is_pass : ScenarioStatus → Bool
is_pass pass = true
is_pass fail = false
is_pass skip = false

abbrev pub is_fail : ScenarioStatus → Bool
is_fail pass = false
is_fail fail = true
is_fail skip = false

abbrev pub is_skip : ScenarioStatus → Bool
is_skip pass = false
is_skip fail = false
is_skip skip = true

-- How many results have a status that passes a test.
abbrev pub count : (ScenarioStatus → Bool) → List ScenarioResult → ℕ
count p [] = 0
count p (r ∷ results) = (if p r.status then 1 else 0) + count p results

-- The counters stand that far above the given ones.
abbrev Advanced : Counters → List ScenarioResult → Counters → Type 0
Advanced c results d =
    (d.passes ≡ c.passes + count is_pass results)
    × (d.failures ≡ c.failures + count is_fail results)
    × (d.skips ≡ c.skips + count is_skip results)

tally-Advanced :
    (r : ScenarioResult) (results : List ScenarioResult) (c d : Counters) (s : ScenarioStatus)
    → r.status ≡ s
    → Advanced (tally s c) results d
    → Advanced c (r ∷ results) d
tally-Advanced r results c d pass e h = rw e (omega arith)
tally-Advanced r results c d fail e h = rw e (omega arith)
tally-Advanced r results c d skip e h = rw e (omega arith)

count_statuses-Advanced :
    (results : List ScenarioResult) (c : Counters) → Advanced c results (count_statuses c results)
unfolding count_statuses
count_statuses-Advanced [] c = omega arith
count_statuses-Advanced (r ∷ results) c =
    tally-Advanced r results c _ r.status refl (count_statuses-Advanced results (tally r.status c))

status_of :
    (s : ScenarioStatus)
    → (if is_pass s then 1 else 0) + (if is_fail s then 1 else 0) + (if is_skip s then 1 else 0) ≡ 1
status_of pass = refl
status_of fail = refl
status_of skip = refl

count_all :
    (results : List ScenarioResult)
    → count is_pass results + count is_fail results + count is_skip results ≡ length results
count_all [] = refl
count_all (r ∷ results) = omega (arith, count_all results, status_of r.status)

pub any-is_fail :
    (results : List ScenarioResult)
    → any (λ r. is_fail r.status) results ≡ ltb 0 (count is_fail results)
any-is_fail [] = refl
any-is_fail (r ∷ results) = ground (arith, any-is_fail results)

-- The summary counts the results of each status, the three counts add up to the total, and the exit
-- code is 1 where a scenario failed and 0 where none did.
pub derive_summary-exact :
    (results : List ScenarioResult)
    → let s = derive_summary results in
      (s.passed ≡ count is_pass results)
      × (s.failed ≡ count is_fail results)
      × (s.skipped ≡ count is_skip results)
      × (s.passed + s.failed + s.skipped ≡ s.total)
      × (s.exit_code ≡ (if any (λ r. is_fail r.status) results then 1 else 0))
unfolding derive_summary
derive_summary-exact results =
    let (p, f, s) =
      count_statuses-Advanced results (record { passes = 0; failures = 0; skips = 0 }) in
    (
      omega arith,
      omega arith,
      omega arith,
      omega (arith, count_all results),
      ground (arith, any-is_fail results),
    )
