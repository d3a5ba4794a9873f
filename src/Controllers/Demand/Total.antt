-- ===== src/Controllers/Demand/Total.antt =====
-- What the sum over the pods in controllers/allocation.rs amounts to: the demand of the pods as a
-- multiset, in numbers.
use mathlib.Core.List.{foldr}
use mathlib.Core.List.{Perm}
use mathlib.Core.List.Perm
use native.Mathlib.Nat.{ℕ_set}
use mathlib.Core.Path.{ap₂}
use emergency_ration_webhook.Common.{
  ℕ, ◌+◌, ◌≤◌, Option, none, some, List, [], ◌∷◌, Bool-cases, ◌≡◌, ◌∙◌, ap, sym, arith,
  if◌then◌else◌, inl, inr,
}
use emergency_ration_webhook.Common.Int.{ℤ, pos, negsuc, pos_part, ◌+ℤ◌}
use emergency_ration_webhook.Common.Word.{wrap64, wrap64-eq, wrap64-add}
use emergency_ration_webhook.Common.Result.{Result, ok, err, Yields}
use emergency_ration_webhook.Common.Float.{Float}
use emergency_ration_webhook.K8s.{Pod, PodSpec}
use emergency_ration_webhook.Resources.Quantity.{QuantityParseError}
use emergency_ration_webhook.Resources.Quantity.Range.{IsOrderly, IsAmount}
use emergency_ration_webhook.Resources.PodRequests.{extract_pod_requests}
use emergency_ration_webhook.Resources.PodRequests.Range.{
  AreAmounts, extract_pod_requests-AreAmounts,
}
use emergency_ration_webhook.Webhook.Admission.{Figures}
use emergency_ration_webhook.Controllers.Demand.{
  is_non_terminal, add_request, add_spec, add_pod, sum_pods, sum_pod_allocation,
}

-- What a pod takes of one resource: nothing once it has ended, or where its requests cannot be
-- read.
abbrev pub taken : (Figures → ℕ) → Result QuantityParseError Figures → ℕ
taken f (ok request) = f request
taken f (err e) = 0

abbrev pub cpu : Figures → ℕ
cpu request = pos_part request.0

abbrev pub memory : Figures → ℕ
memory request = pos_part request.1

wrap64-add_amount :
    (a : ℕ) (z : ℤ) → IsAmount z → wrap64 (wrap64 (pos a) +ℤ z) ≡ wrap64 (pos (a + pos_part z))
wrap64-add_amount a (pos n) h = wrap64-add a n
wrap64-add_amount a (negsuc n) h = ground arith

module _ (fl : Float) where
  abbrev pub spec_demand : (Figures → ℕ) → Option PodSpec → ℕ
  spec_demand f none = 0
  spec_demand f (some spec) = taken f (extract_pod_requests fl spec)

  abbrev pub pod_demand : (Figures → ℕ) → Pod → ℕ
  pod_demand f pod = if is_non_terminal pod.phase then spec_demand f pod.spec else 0

  abbrev pub demand : (Figures → ℕ) → List Pod → ℕ
  demand f pods = foldr (λ pod n. pod_demand f pod + n) 0 pods

  -- The accumulator after demands of `a` and `b`.
  abbrev wrapped : ℕ → ℕ → Figures
  wrapped a b = (wrap64 (pos a), wrap64 (pos b))

  wrapped-eq : {a a' b b' : ℕ} → a ≡ a' → b ≡ b' → wrapped a b ≡ wrapped a' b'
  wrapped-eq = ap₂ wrapped

  demand-Perm :
      (f : Figures → ℕ) {pods others : List Pod}
      → Perm pods others
      → demand f pods ≡ demand f others
  demand-Perm f same = Perm.foldr-eq ℕ_set _ (λ p q n. omega arith) same 0

  add_request-wrapped :
      (a b : ℕ) (r : Result QuantityParseError Figures)
      → Yields AreAmounts r
      → add_request (wrapped a b) r ≡ wrapped (a + taken cpu r) (b + taken memory r)
  add_request-wrapped a b (ok request) (h, k) =
      ap₂ (λ x y. (x, y)) (wrap64-add_amount a request.0 h) (wrap64-add_amount b request.1 k)
  add_request-wrapped a b (err e) h = wrapped-eq (omega arith) (omega arith)

  module _ (orderly : IsOrderly fl) where
    add_spec-wrapped :
        (a b : ℕ) (spec : Option PodSpec)
        → add_spec fl (wrapped a b) spec
          ≡ wrapped (a + spec_demand cpu spec) (b + spec_demand memory spec)
    add_spec-wrapped a b none = wrapped-eq (omega arith) (omega arith)
    add_spec-wrapped a b (some spec) =
        add_request-wrapped a b (extract_pod_requests fl spec)
          (extract_pod_requests-AreAmounts fl orderly spec)

    add_pod-wrapped :
        (a b : ℕ) (pod : Pod)
        → add_pod fl (wrapped a b) pod
          ≡ wrapped (a + pod_demand cpu pod) (b + pod_demand memory pod)
    add_pod-wrapped a b pod = elim (Bool-cases (is_non_terminal pod.phase)) [
      | inl e ↦ rw e (add_spec-wrapped a b pod.spec)
      | inr e ↦ rw e (wrapped-eq {a = a} {b = b} (omega arith) (omega arith))
    ]

    sum_pods-wrapped :
        (pods : List Pod) (a b : ℕ)
        → sum_pods fl (wrapped a b) pods ≡ wrapped (a + demand cpu pods) (b + demand memory pods)
    unfolding sum_pods
    sum_pods-wrapped [] a b = wrapped-eq (omega arith) (omega arith)
    sum_pods-wrapped (pod ∷ pods) a b =
        ap (λ acc. sum_pods fl acc pods) (add_pod-wrapped a b pod)
        ∙ (sum_pods-wrapped pods _ _ ∙ wrapped-eq (omega arith) (omega arith))

    sum_pod_allocation-wrapped :
        (pods : List Pod)
        → sum_pod_allocation fl pods ≡ wrapped (demand cpu pods) (demand memory pods)
    unfolding sum_pod_allocation wrap64
    sum_pod_allocation-wrapped pods =
        sum_pods-wrapped pods 0 0 ∙ wrapped-eq (omega arith) (omega arith)

    -- Where floats are orderly, and the demands of the pods that have not ended add up within i64
    -- for CPU and for memory, the sum is exactly these two totals.
    pub sum_pod_allocation-exact :
        (pods : List Pod)
        → demand cpu pods ≤ 9223372036854775807
        → demand memory pods ≤ 9223372036854775807
        → sum_pod_allocation fl pods ≡ (pos (demand cpu pods), pos (demand memory pods))
    sum_pod_allocation-exact pods h k =
        sum_pod_allocation-wrapped pods
        ∙ ap₂ (λ x y. (x, y)) (wrap64-eq _ (omega arith)) (wrap64-eq _ (omega arith))

    -- Where floats are orderly, the order in which the cache hands out the pods does not matter to
    -- the sum, even where it wraps around.
    pub sum_pod_allocation-Perm :
        {pods others : List Pod}
        → Perm pods others
        → sum_pod_allocation fl pods ≡ sum_pod_allocation fl others
    sum_pod_allocation-Perm {pods} {others} same =
        sum_pod_allocation-wrapped pods
        ∙ (wrapped-eq (demand-Perm cpu same) (demand-Perm memory same)
            ∙ sym (sum_pod_allocation-wrapped others))
