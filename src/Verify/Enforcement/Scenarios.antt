-- ===== src/Verify/Enforcement/Scenarios.antt =====
-- bin/erw-verify/scenarios/enforcement.rs: the scenarios S1 to S6 and S9, which submit pods.
use emergency_ration_webhook.Common.{
  ℕ, zero, suc, ◌+◌, ◌%◌, Option, none, some, List, [], ◌∷◌, ◌++◌, Bool, true, false, ◌&&◌, not,
  leb, ltb, if◌then◌else◌,
}
use emergency_ration_webhook.Common.Int.{pos}
use emergency_ration_webhook.Common.Result.{Result, ok, err, unwrap_or}
use emergency_ration_webhook.Common.Task.{Task, ◌>>=◌, pure, fail, call, read, perform, attempt}
use emergency_ration_webhook.Common.Text.{
  codes, Text, lines, contains, is_prefix, is_whitespace, parse_unsigned, show_ℕ,
}
use emergency_ration_webhook.Crd.Allocation.{enforce, dry_run}
use emergency_ration_webhook.Verify.Degradation.{SubmitError}
use emergency_ration_webhook.Verify.Enforcement.{
  Cluster, is_denied_403, denied_403, is_created, denial_message, create_pod, delete_pod,
  apply_budget, restore_budget, scenario_budget_percent, apply_per_resource_budgets,
  restore_per_resource_budgets, patch_enforcement,
}

-- The last token of a line: `split_whitespace().next_back()`.
abbrev keep_token : Option Text → Text → Option Text
keep_token last [] = last
keep_token last (c ∷ s) = some (c ∷ s)

unfoldable pub last_token : Option Text → Text → Text → Option Text
last_token last current [] = keep_token last current
last_token last current (c ∷ s) =
    let split = last_token (keep_token last current) [] s in
    let grown = last_token last (current ++ c ∷ []) s in if is_whitespace c then split else grown

abbrev pub flag_text : Bool → Text
flag_text true = codes "true"
flag_text false = codes "false"

abbrev sample_value : Option Text → ℕ
sample_value none = 0
sample_value (some token) = unwrap_or (parse_unsigned 18446744073709551615 token) 0

-- The value that one line of the metrics adds; `+=` on a u64.
abbrev add_sample : Text → ℕ → ℕ
add_sample line total =
    if is_prefix (codes "capacity_admission_verdicts_total{") line
      && contains (codes "verdict=\"dry_run_deny\"") line
    then (total + sample_value (last_token none [] line)) % 18446744073709551616
    else total

unfoldable pub sum_samples : ℕ → List Text → ℕ
unfolding last_token
sum_samples total [] = total
sum_samples total (line ∷ rest) = sum_samples (add_sample line total) rest

-- The test of S9 on the first line of the denial.
unfoldable pub is_memory_only : Text → Bool
unfolding contains
is_memory_only msg =
    contains (codes "memory budget exceeded") msg
    && not (contains (codes "CPU budget exceeded") msg)

module _ {F : Type 0} (cluster : Cluster F) where
  open cluster use {World}

  abbrev pub after_proxy : Text → Result SubmitError Text → Task World Text
  after_proxy path (ok body) = pure body
  after_proxy path (err e) =
      fail (codes "proxy GET /" ++ (path ++ (codes ": " ++ cluster.display e)))

  unfoldable pub proxy_get : Text → Task World Text
  proxy_get path = do answer ← call (cluster.proxy_get path); after_proxy path answer

  unfoldable pub dry_run_deny_count : Task World ℕ
  unfolding sum_samples lines
  dry_run_deny_count = do
    metrics ← proxy_get (codes "metrics")
    pure (sum_samples 0 (lines metrics))

  -- `unwrap_or(0)`.
  abbrev or_zero : Result Text ℕ → ℕ
  or_zero (ok n) = n
  or_zero (err e) = 0

  abbrev pub after_s1 : Result SubmitError Unit → Task World Text
  after_s1 (ok created) = do
    _ ← delete_pod cluster (codes "erw-verify-s1")
    pure (codes "pod default/erw-verify-s1 admitted")
  after_s1 (err e) = fail (codes "expected pod admitted; apiserver returned: " ++ cluster.display e)

  unfoldable pub s1 : Task World Text
  s1 = do answer ← create_pod cluster (codes "erw-verify-s1") "10m" "10Mi"; after_s1 answer

  abbrev pub after_s2 : Result SubmitError Unit → Task World Text
  after_s2 (ok created) = do
    _ ← delete_pod cluster (codes "erw-verify-s2")
    fail (codes "expected pod denied (HTTP 403) but it was admitted")
  after_s2 (err e) =
      if is_denied_403 e
      then pure (codes "pod denied with HTTP 403: " ++ denial_message cluster e)
      else fail (codes "expected HTTP 403 denial; got: " ++ cluster.display e)

  unfoldable pub s2 : Task World Text
  s2 = do answer ← create_pod cluster (codes "erw-verify-s2") "999" "999Gi"; after_s2 answer

  unfoldable pub s3 : ℕ → Task World Text
  s3 fuel = do
    _ ← apply_budget cluster fuel (pos 0)
    answer ← create_pod cluster (codes "erw-verify-s3") "10m" "10Mi"
    _ ← delete_pod cluster (codes "erw-verify-s3")
    _ ← restore_budget cluster fuel
    if denied_403 answer
        then pure (codes "budgetPercent=0: small pod denied (ceiling is 0 → circuit-breaker)")
        else fail (codes "expected denial at budgetPercent=0 but the pod was admitted")

  unfoldable pub s4 : ℕ → Task World Text
  s4 fuel = do
    _ ← apply_budget cluster fuel (pos 100)
    over ← create_pod cluster (codes "erw-verify-s4-over") "99999" "99999Gi"
    _ ← delete_pod cluster (codes "erw-verify-s4-over")
    within ← create_pod cluster (codes "erw-verify-s4-ok") "10m" "10Mi"
    _ ← delete_pod cluster (codes "erw-verify-s4-ok")
    _ ← restore_budget cluster fuel
    if denied_403 over && is_created within
        then pure (codes "budgetPercent=100: over-physical denied, within-physical admitted")
        else fail (
            codes "budgetPercent=100 guard failed (over denied="
            ++ (flag_text (denied_403 over)
                ++ (codes ", within admitted=" ++ (flag_text (is_created within) ++ codes ")"))))

  unfoldable pub s5 : ℕ → Task World Text
  s5 fuel = do
    _ ← apply_budget cluster fuel (pos 0)
    at_zero ← create_pod cluster (codes "erw-verify-s5") "10m" "10Mi"
    _ ← delete_pod cluster (codes "erw-verify-s5")
    _ ← apply_budget cluster fuel scenario_budget_percent
    at_80 ← create_pod cluster (codes "erw-verify-s5") "10m" "10Mi"
    _ ← delete_pod cluster (codes "erw-verify-s5")
    if denied_403 at_zero && is_created at_80
        then pure (codes "runtime budget patch (0→80) took effect without a webhook restart")
        else fail (
            codes "runtime adjust failed (denied@0="
            ++ (flag_text (denied_403 at_zero)
                ++ (codes ", admitted@80=" ++ (flag_text (is_created at_80) ++ codes ")"))))

  -- One round of the loop of S6, at the answer to the submission.
  abbrev pub after_dry_run : Task World Bool → Result SubmitError Unit → Task World Bool
  after_dry_run rest (ok created) = do _ ← delete_pod cluster (codes "erw-verify-s6"); pure true
  after_dry_run rest (err e) =
      if is_denied_403 e then (do _ ← perform (cluster.sleep 1000); rest) else (do
        _ ← delete_pod cluster (codes "erw-verify-s6")
        fail (codes "dry-run pod create: unexpected error " ++ cluster.display e))

  -- The loop: whether a pod was admitted before the deadline.
  unfoldable pub probe_dry_run : ℕ → ℕ → Task World Bool
  unfolding create_pod
  probe_dry_run zero deadline w = none
  probe_dry_run (suc fuel) deadline w =
      let on =
        (create_pod cluster (codes "erw-verify-s6") "999" "999Gi"
            >>= after_dry_run (probe_dry_run fuel deadline))
          w in
      if leb deadline (cluster.now w) then some (ok false, w) else on

  unfoldable pub s6 : ℕ → Task World Text
  unfolding probe_dry_run
  s6 fuel = do
    _ ← patch_enforcement cluster dry_run
    first ← attempt dry_run_deny_count
    let before = or_zero first
    start ← read cluster.now
    admitted ← probe_dry_run fuel (start + 15000)
    last ← attempt dry_run_deny_count
    let after = or_zero last
    _ ← patch_enforcement cluster enforce
    if admitted && ltb before after
        then pure (
            codes "dry-run: over-budget pod admitted; dry_run_deny counter "
            ++ (codes (show_ℕ before) ++ (codes "→" ++ codes (show_ℕ after))))
        else fail (
            codes "dry-run failed (over-budget admitted="
            ++ (flag_text admitted
                ++ (codes ", dry_run_deny "
                    ++ (codes (show_ℕ before)
                        ++ (codes "→" ++ (codes (show_ℕ after) ++ codes ")"))))))

  abbrev pub judge_s9 : Result SubmitError Unit → Task World Text
  judge_s9 (ok created) = fail (codes "expected memory-only denial but the pod was admitted")
  judge_s9 (err e) =
      if is_denied_403 e
      then (if is_memory_only (denial_message cluster e)
          then pure
              (codes "per-resource budgets: denied on memory only: " ++ denial_message cluster e)
          else fail (codes "expected memory-only denial; got: " ++ denial_message cluster e))
      else fail (codes "expected HTTP 403 denial; got: " ++ cluster.display e)

  unfoldable pub s9 : ℕ → Task World Text
  s9 fuel = do
    _ ← apply_per_resource_budgets cluster fuel (pos 95) (pos 30)
    outcome ← create_pod cluster (codes "erw-verify-s9") "10m" "999Gi"
    _ ← delete_pod cluster (codes "erw-verify-s9")
    _ ← restore_per_resource_budgets cluster fuel
    judge_s9 outcome
