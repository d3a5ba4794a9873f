-- ===== src/Webhook/Evaluate/Delta.antt =====
-- The effective request of webhook/handler.rs: what an update asks for beyond the old object.
use emergency_ration_webhook.Common.{Option, none, some, ◌≡◌, arith, refl}
use emergency_ration_webhook.Common.Int.{ℤ, ◌-ℤ◌}
use emergency_ration_webhook.Common.Word.{IsI64, wrap64-eq}
use emergency_ration_webhook.Common.Result.{Result, ok, err, Yields, and_then}
use emergency_ration_webhook.Common.Float.{Float}
use emergency_ration_webhook.K8s.{Pod, PodSpec, update, AdmissionRequest}
use emergency_ration_webhook.Resources.Quantity.{QuantityParseError, invalid}
use emergency_ration_webhook.Resources.Quantity.Range.{IsAmount, IsOrderly}
use emergency_ration_webhook.Resources.PodRequests.{extract_pod_requests}
use emergency_ration_webhook.Resources.PodRequests.Range.{
  AreAmounts, extract_pod_requests-AreAmounts,
}
use emergency_ration_webhook.Webhook.Failure.{AdmissionError}
use emergency_ration_webhook.Webhook.Admission.{Figures}
use emergency_ration_webhook.Webhook.Evaluate.{
  parse_failure, spec_request, pod_request, effective_request,
}

parse_failure-AreAmounts :
    (r : Result QuantityParseError Figures)
    → Yields AreAmounts r
    → Yields AreAmounts (parse_failure r)
parse_failure-AreAmounts (ok a) h = h
parse_failure-AreAmounts (err (invalid input reason)) h = tt

Yields-value :
    (r : Result AdmissionError Figures) {a : Figures}
    → Yields AreAmounts r
    → r ≡ ok a
    → AreAmounts a
Yields-value (ok b) {a = a} h e = let same : b ≡ a = ok_eq e in rw (← same) h
  where
    ok_eq : {b a : Figures} → ◌≡◌ {A = Result AdmissionError Figures} (ok b) (ok a) → b ≡ a
    ok_eq e = cc
Yields-value (err x) h e = cc

difference-IsI64 : (a b : ℤ) → IsAmount a → IsAmount b → IsI64 (a -ℤ b)
unfolding ◌-ℤ◌
difference-IsI64 a b h k = ground arith

module _ (fl : Float) (orderly : IsOrderly fl) where
  spec_request-AreAmounts : (spec : Option PodSpec) → Yields AreAmounts (spec_request fl spec)
  spec_request-AreAmounts none = ground arith
  spec_request-AreAmounts (some spec) =
      parse_failure-AreAmounts (extract_pod_requests fl spec)
        (extract_pod_requests-AreAmounts fl orderly spec)

  pod_request-AreAmounts : (pod : Option Pod) → Yields AreAmounts (pod_request fl pod)
  unfolding pod_request
  pod_request-AreAmounts pod = spec_request-AreAmounts (and_then pod (λ p. p.spec))

  -- On an update whose two objects can be read, where floats are orderly, the effective request is
  -- the new object's request less the old one's in unbounded integers: the difference never wraps.
  pub effective_request-delta :
      (request : AdmissionRequest) (new old : Figures)
      → request.operation ≡ update
      → pod_request fl request.object ≡ ok new
      → pod_request fl request.old_object ≡ ok old
      → effective_request fl request ≡ ok (new.0 -ℤ old.0, new.1 -ℤ old.1)
  unfolding effective_request
  effective_request-delta request new old u n o =
      let (n₀, n₁) = Yields-value _ (pod_request-AreAmounts request.object) n in
      let (o₀, o₁) = Yields-value _ (pod_request-AreAmounts request.old_object) o in
      let e₀ = wrap64-eq (new.0 -ℤ old.0) (difference-IsI64 new.0 old.0 n₀ o₀) in
      let e₁ = wrap64-eq (new.1 -ℤ old.1) (difference-IsI64 new.1 old.1 n₁ o₁) in
      simp (u, n, o, e₀, e₁) refl
