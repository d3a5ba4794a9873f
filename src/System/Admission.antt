-- ===== src/System/Admission.antt =====
-- From the pods of the cluster to the decision: what the status of controllers/allocation.rs makes
-- the decision of webhook/handler.rs admit.
use emergency_ration_webhook.Common.{
  ℕ, String, ◌+◌, ◌*◌, ◌/◌, ◌≤◌, ◌<◌, none, some, List, true, false, ◌≡◌, ◌↔◌, inl, inr, arith,
  refl,
}
use emergency_ration_webhook.Common.Int.{ℤ, pos, negsuc, ◌+ℤ◌, ◌≤ℤ◌}
use emergency_ration_webhook.Common.Result.{ok}
use emergency_ration_webhook.Common.Float.{Float}
use emergency_ration_webhook.K8s.{Pod, AdmissionRequest, AdmissionApi, Store}
use emergency_ration_webhook.Crd.Allocation.{
  enforce, EnforcementMode, AllocationStatus, AllocationSpec, Allocation, resolve_effective_budgets,
}
use emergency_ration_webhook.Crd.ClusterCapacity.{ClusterCapacity, ClusterCapacityStatus}
use emergency_ration_webhook.Resources.Quantity.Range.{IsOrderly}
use emergency_ration_webhook.TimeUtil.{rfc3339_from_unix}
use emergency_ration_webhook.Webhook.Admission.{
  ceiling_per_resource, Figures, AdmissionVerdict, admit, deny, check_budget,
}
use emergency_ration_webhook.Webhook.Admission.Ceiling.{
  percent, clamp_pos, div-mul_le, ceiling_single-eq,
}
use emergency_ration_webhook.Webhook.Admission.Budget.{check_budget-admit_iff}
use emergency_ration_webhook.Webhook.Summary.{assess_freshness}
use emergency_ration_webhook.Webhook.Observe.{totals_of}
use emergency_ration_webhook.Webhook.Evaluate.{
  evaluate, allocated_of, ceilings_of, effective_request, cached_supply, cached_allocation, mode_of,
  exemption_of,
}
use emergency_ration_webhook.Webhook.Evaluate.FailClosed.{Passes, IsAdmissible, evaluate-admits_iff}
use emergency_ration_webhook.Controllers.Demand.{fresh_status, build_allocation_status}
use emergency_ration_webhook.Controllers.Demand.Total.{
  demand, cpu, memory, sum_pod_allocation-exact,
}
use emergency_ration_webhook.System.Freshness.{assess_freshness-rfc3339_from_unix}

Passes-admit :
    (fl : Float) (v : AdmissionVerdict) (mode : EnforcementMode)
    → mode ≡ enforce
    → Passes fl v mode
    → v ≡ admit
Passes-admit fl admit mode e h = refl
Passes-admit fl (deny vs) mode e h = cc

module _ (fl : Float) (kube : AdmissionApi) (request : AdmissionRequest)
    (allocation_store : Store (Allocation fl.F)) (capacity_store : Store ClusterCapacity) (now : ℤ)
    (threshold : ℕ) (own : String) {alloc : Allocation fl.F} {status : AllocationStatus fl.F}
    {capacity : ClusterCapacityStatus} {effective : Figures}
    (found : cached_allocation fl allocation_store ≡ some alloc)
    (initialised : alloc.status ≡ some status) (enforced : mode_of fl alloc ≡ enforce)
    (subject : exemption_of fl request alloc own ≡ none)
    (supply : cached_supply capacity_store ≡ some capacity)
    (readable : effective_request fl request ≡ ok effective) where
  -- For a pod that is not exempt, in enforce mode, on known figures, only the age of the status and
  -- the budget check count.
  admissible :
      (assess_freshness status.last_updated now threshold).stale ≡ false
      → check_budget (allocated_of fl status) effective (ceilings_of fl status) ≡ admit
      → IsAdmissible fl request capacity_store now threshold allocation_store own
  admissible fresh fits = record {
    alloc = alloc;
    found = found;
    status = status;
    initialised = initialised;
    cleared = inr (
      subject,
      record {
        fresh = fresh;
        capacity = capacity;
        supply = supply;
        effective = effective;
        readable = readable;
        passes = rw fits tt;
      },
    );
  }

  within :
      IsAdmissible fl request capacity_store now threshold allocation_store own
      → ((assess_freshness status.last_updated now threshold).stale ≡ false)
        × (check_budget (allocated_of fl status) effective (ceilings_of fl status) ≡ admit)
  within a =
      let same : a.alloc ≡ alloc = cc in
      let same_status : a.status ≡ status = cc in
      elim a.cleared [
        | inl (reason, exempted) ↦ cc
        | inr (none_applies, w) ↦
            let same_request : w.effective ≡ effective = cc (w.readable, readable) in
            let passed = Passes-admit fl _ _ (rw same enforced) w.passes in
            rw (← same_status, ← same_request) (w.fresh, passed)
      ]

-- The budget of one resource, in numbers: what the pods take and what is asked for fit into the
-- share of the supply.
abbrev pub Fits : ℕ → ℕ → ℕ → ℤ → Type 0
Fits taken asked supply budget = taken + asked ≤ supply * percent budget / 100

check_budget-pos_iff :
    (a b r s c d : ℕ)
    → c < 9223372036854775807
    → d < 9223372036854775807
    → (check_budget (pos a, pos b) (pos r, pos s) (pos c, pos d) ≡ admit)
      ↔ ((a + r ≤ c) × (b + s ≤ d))
unfolding ◌+ℤ◌
check_budget-pos_iff a b r s c d h k =
    let (to, from) =
      check_budget-admit_iff (pos a, pos b) (pos r, pos s) (pos c, pos d) (omega arith)
        (omega arith) (omega arith) (omega arith) in
    (
      (λ e. let (x, y) = to e in (ground arith, ground arith)),
      λ (x, y). from (ground arith, ground arith),
    )

share-lt :
    (t : ℕ) (budget : ℤ) → t < 9223372036854775807 → t * percent budget / 100 < 9223372036854775807
share-lt t budget h =
    let (_, le) = clamp_pos budget in omega (arith, div-mul_le t (percent budget) le)

module _ (fl : Float) (orderly : IsOrderly fl) where
  written_budgets :
      (stamp : String) (pods : List Pod) (capacity_store : Store ClusterCapacity)
      (spec : AllocationSpec) (tc tm rc rm : ℕ)
      → totals_of fl (cached_supply capacity_store) ≡ (pos tc, pos tm)
      → tc < 9223372036854775807
      → tm < 9223372036854775807
      → demand fl cpu pods ≤ 9223372036854775807
      → demand fl memory pods ≤ 9223372036854775807
      → let status = fresh_status fl stamp pods capacity_store spec in
        (check_budget (allocated_of fl status) (pos rc, pos rm) (ceilings_of fl status) ≡ admit) ↔ (
          Fits (demand fl cpu pods) rc tc (resolve_effective_budgets spec).0
          × Fits (demand fl memory pods) rm tm (resolve_effective_budgets spec).1)
  unfolding build_allocation_status ceiling_per_resource
  written_budgets stamp pods capacity_store spec tc tm rc rm supply hc hm dc dm =
      rw
        (
          sum_pod_allocation-exact fl orderly pods dc dm,
          supply,
          ceiling_single-eq tc (resolve_effective_budgets spec).0 (omega arith),
          ceiling_single-eq tm (resolve_effective_budgets spec).1 (omega arith),
        )
        (check_budget-pos_iff (demand fl cpu pods) (demand fl memory pods) rc rm _ _
          (share-lt tc (resolve_effective_budgets spec).0 hc)
          (share-lt tm (resolve_effective_budgets spec).1 hm))

  -- Where floats are orderly: at a status that a recompute wrote at second `written`, from the pods
  -- and a supply of `tc` milli-CPUs and `tm` bytes below i64::MAX, whose demands add up within i64,
  -- a pod that is not exempt, with a request that can be read and is not negative, in enforce mode
  -- and on a known supply, is admitted exactly when the
  -- status is at most `threshold` seconds old, and for CPU and memory each the demand of the pods
  -- that have not ended and the request are together at most the floor of the budgeted share of
  -- the supply.
  pub evaluate-Fits_iff :
      (kube : AdmissionApi) (request : AdmissionRequest)
      (allocation_store : Store (Allocation fl.F))
      (capacity_then capacity_now : Store ClusterCapacity) (pods : List Pod) (spec : AllocationSpec)
      (written now : ℤ) (threshold : ℕ) (own : String) (tc tm rc rm : ℕ) {alloc : Allocation fl.F}
      {capacity : ClusterCapacityStatus}
      → cached_allocation fl allocation_store ≡ some alloc
      → alloc.status ≡ some (fresh_status fl (rfc3339_from_unix written) pods capacity_then spec)
      → mode_of fl alloc ≡ enforce
      → exemption_of fl request alloc own ≡ none
      → cached_supply capacity_now ≡ some capacity
      → effective_request fl request ≡ ok (pos rc, pos rm)
      → totals_of fl (cached_supply capacity_then) ≡ (pos tc, pos tm)
      → tc < 9223372036854775807
      → tm < 9223372036854775807
      → demand fl cpu pods ≤ 9223372036854775807
      → demand fl memory pods ≤ 9223372036854775807
      → negsuc 62135596799 ≤ℤ written
      → written ≤ℤ pos 253402300799
      → threshold < 9223372036854775807
      → ((evaluate fl kube request allocation_store capacity_now now threshold own).response.allowed
          ≡ true)
        ↔ ((now ≤ℤ written +ℤ pos threshold)
            × Fits (demand fl cpu pods) rc tc (resolve_effective_budgets spec).0
            × Fits (demand fl memory pods) rm tm (resolve_effective_budgets spec).1)
  unfolding build_allocation_status
  evaluate-Fits_iff kube request allocation_store capacity_then capacity_now pods spec written now
        threshold own tc tm rc rm {alloc} {capacity} found initialised enforced subject supply
        readable totals hc hm dc dm lo hi bound =
      let (admitted, admits) =
        evaluate-admits_iff fl kube request allocation_store capacity_now now threshold own in
      let (age, young) = assess_freshness-rfc3339_from_unix written now threshold lo hi bound in
      let (fit, fits) =
        written_budgets (rfc3339_from_unix written) pods capacity_then spec tc tm rc rm totals hc hm
          dc dm in
      (
        (λ allowed.
            let (fresh, passed) =
              within fl kube request allocation_store capacity_now now threshold own found
                initialised enforced subject supply readable (admitted allowed) in
            let (c, m) = fit passed in (age fresh, c, m)),
        λ (in_time, c, m). admits (
            admissible fl kube request allocation_store capacity_now now threshold own found
              initialised enforced subject supply readable (young in_time) (fits (c, m))),
      )
