-- ===== src/System/Interleaving/Requests.antt =====
-- What a new pod asks for, in webhook/handler.rs, is what it takes, in controllers/allocation.rs.
use emergency_ration_webhook.Common.{
  ℕ, ◌+◌, ◌≤◌, Option, none, some, List, [], ◌∷◌, ◌++◌, Bool-cases, inl, inr, ◌≡◌, refl, arith,
}
use emergency_ration_webhook.Common.Int.{pos, negsuc}
use emergency_ration_webhook.Common.Result.{Result, ok, err, Yields, >>=-eq-ok}
use emergency_ration_webhook.Common.Float.{Float}
use emergency_ration_webhook.K8s.{Pod, PodSpec, create, AdmissionRequest}
use emergency_ration_webhook.Resources.Quantity.{QuantityParseError, invalid}
use emergency_ration_webhook.Resources.Quantity.Range.{IsOrderly}
use emergency_ration_webhook.Resources.PodRequests.{extract_pod_requests}
use emergency_ration_webhook.Resources.PodRequests.Range.{
  AreAmounts, extract_pod_requests-AreAmounts,
}
use emergency_ration_webhook.Webhook.Admission.{Figures}
use emergency_ration_webhook.Webhook.Evaluate.{
  parse_failure, spec_request, pod_request, effective_request,
}
use emergency_ration_webhook.Controllers.Demand.{is_non_terminal}
use emergency_ration_webhook.Controllers.Demand.Total.{
  taken, spec_demand, pod_demand, demand, cpu, memory,
}

AreAmounts-pos : (e : Figures) → AreAmounts e → e ≡ (pos (cpu e), pos (memory e))
AreAmounts-pos (pos m, pos n) h = refl
AreAmounts-pos (pos m, negsuc n) h = ground arith
AreAmounts-pos (negsuc m, y) h = ground arith

taken-ok :
    (r : Result QuantityParseError Figures) {e : Figures}
    → Yields AreAmounts r
    → parse_failure r ≡ ok e
    → AreAmounts e × (taken cpu r ≡ cpu e) × (taken memory r ≡ memory e)
taken-ok (ok x) {e} h p = let same : x ≡ e = cc in rw (← same) (h, refl, refl)
taken-ok (err (invalid input reason)) h p = cc

module _ (fl : Float) where
  demand-middle :
      (f : Figures → ℕ) (before after : List Pod) (pod : Pod)
      → demand fl f (before ++ (pod ∷ after)) ≡ pod_demand fl f pod + demand fl f (before ++ after)
  demand-middle f [] after pod = refl
  demand-middle f (p ∷ before) after pod = ground (arith, demand-middle f before after pod)

  -- A pod that leaves takes nothing any more, and one that ends neither.
  pub demand-deleted :
      (f : Figures → ℕ) (before after : List Pod) (pod : Pod)
      → demand fl f (before ++ after) ≤ demand fl f (before ++ (pod ∷ after))
  demand-deleted f before after pod = rw (demand-middle f before after pod) (omega arith)

  pub demand-ended :
      (f : Figures → ℕ) (before after : List Pod) (pod : Pod)
      → demand fl f (before ++ (record pod { phase = some "Succeeded" } ∷ after))
        ≤ demand fl f (before ++ (pod ∷ after))
  unfolding is_non_terminal
  demand-ended f before after pod =
      rw
        (
          demand-middle f before after pod,
          demand-middle f before after (record pod { phase = some "Succeeded" }),
        )
        (omega arith)

  pod_demand-le : (f : Figures → ℕ) (pod : Pod) → pod_demand fl f pod ≤ spec_demand fl f pod.spec
  pod_demand-le f pod = elim (Bool-cases (is_non_terminal pod.phase)) [
    | inl runs ↦ rw runs (omega arith)
    | inr over ↦ rw over (omega arith)
  ]

  module _ (orderly : IsOrderly fl) where
    spec_request-taken :
        (spec : Option PodSpec) {e : Figures}
        → spec_request fl spec ≡ ok e
        → AreAmounts e × (spec_demand fl cpu spec ≡ cpu e) × (spec_demand fl memory spec ≡ memory e)
    spec_request-taken none {e} h = let same : (pos 0, pos 0) ≡ e = cc in rw (← same) (ground arith)
    spec_request-taken (some spec) h =
        taken-ok (extract_pod_requests fl spec) (extract_pod_requests-AreAmounts fl orderly spec) h

    -- The effective request for a new pod is at least what the pod takes.
    pub effective_request-created :
        (request : AdmissionRequest) (pod : Pod) {e : Figures}
        → request.operation ≡ create
        → request.object ≡ some pod
        → effective_request fl request ≡ ok e
        → (e ≡ (pos (cpu e), pos (memory e)))
          × (pod_demand fl cpu pod ≤ cpu e)
          × (pod_demand fl memory pod ≤ memory e)
    unfolding effective_request pod_request
    effective_request-created request pod {e} made asked h =
        let (new, read, kept) = >>=-eq-ok (spec_request fl pod.spec) _ (rw (asked, made) at h) in
        let same : new ≡ e = cc in
        let (amounts, c, m) = spec_request-taken pod.spec (rw same at read) in
        (
          AreAmounts-pos e amounts,
          rw (← c) (pod_demand-le cpu pod),
          rw (← m) (pod_demand-le memory pod),
        )
