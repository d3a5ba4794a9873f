-- ===== src/Webhook/Handler/Guarded.antt =====
-- The request path of webhook/handler.rs fails closed.
use emergency_ration_webhook.Common.{ℕ, true, false, ◌≡◌, ◌↔◌, inl, inr, refl, Bool-cases}
use emergency_ration_webhook.Common.Result.{Result, ok, err, ◌>>=◌}
use emergency_ration_webhook.Common.Int.{ℤ}
use emergency_ration_webhook.Common.Float.{Float}
use emergency_ration_webhook.K8s.{AdmissionRequest, AdmissionApi}
use emergency_ration_webhook.Webhook.Failure.{AdmissionError}
use emergency_ration_webhook.Webhook.Summary.{RequestMeta, reject_outcome}
use emergency_ration_webhook.Webhook.Evaluate.FailClosed.{IsAdmissible, evaluate-admits_iff}
use emergency_ration_webhook.Webhook.Handler.{
  Decoder, AppState, Run, decode, run_decision, outcome_for, conclude, outcome_of, handle,
  request_meta,
}

module _ (dec : Decoder) (fl : Float) (kube : AdmissionApi) (state : AppState fl.F) where
  -- A run that admits: no panic, a body that decodes, and an admissible request.
  pub record IsServed (body : dec.Body) (run : Run) : Type 0 where
    pub calm : run.panics ≡ false
    pub request : AdmissionRequest
    pub decoded : decode dec body ≡ ok request
    pub admissible :
        IsAdmissible fl request state.capacity_store state.clock
          state.capacity_freshness_timeout_secs state.allocation_store state.webhook_namespace

  decided-allowed :
      (meta : RequestMeta) (r : Result AdmissionError AdmissionRequest)
      → ((conclude dec fl kube state meta
            (ok (r >>= λ q. ok (outcome_for dec fl kube state q)))).response.allowed
          ≡ true)
        ↔ ((q : AdmissionRequest) × (r ≡ ok q)
            × IsAdmissible fl q state.capacity_store state.clock
                state.capacity_freshness_timeout_secs state.allocation_store
                state.webhook_namespace)
  unfolding reject_outcome
  decided-allowed meta (err e) = (λ h. cc, λ (q, o, a). cc)
  decided-allowed meta (ok q) =
      let (to, from) =
        evaluate-admits_iff fl kube q state.allocation_store state.capacity_store state.clock
          state.capacity_freshness_timeout_secs state.webhook_namespace in
      ((λ h. (q, refl, to h)), λ (p, o, a). let same : q ≡ p = ok_eq o in from (rw same a))
    where
      ok_eq : {E A : Type 0} {a b : A} → ◌≡◌ {A = Result E A} (ok a) (ok b) → a ≡ b
      ok_eq h = cc

  admits_iff :
      (body : dec.Body) (run : Run)
      → ((handle dec fl kube state body run).response.allowed ≡ true) ↔ IsServed body run
  unfolding handle outcome_of run_decision reject_outcome
  admits_iff body run = elim (Bool-cases run.panics) [
    | inl panic ↦ (λ h. cc (rw panic at h), λ w. cc (w.calm))
    | inr calm ↦
        let (to, from) = decided-allowed (request_meta dec body) (decode dec body) in
        (
          (λ h.
              let (q, decoded, admissible) = to (rw calm at h) in
              record { calm = calm; request = q; decoded = decoded; admissible = admissible }),
          λ w. rw calm (from (w.request, w.decoded, w.admissible)),
        )
  ]

-- The handler admits exactly when the decision does not panic, the body decodes to a request, and
-- that request is admissible under the cached state. The deadline takes no part: whatever the timeout
-- is set to and however long the run takes, the response is the same.
pub handle-admits_iff :
    (dec : Decoder) (fl : Float) (kube : AdmissionApi) (state : AppState fl.F) (body : dec.Body)
    (run : Run) (timeout_ms : ℕ) (latency_ms : ℤ)
    → let late = record state { decision_timeout_ms = timeout_ms } in
      let slow = record run { latency_ms = latency_ms } in
      (((handle dec fl kube state body run).response.allowed ≡ true)
        ↔ IsServed dec fl kube state body run)
      × ((handle dec fl kube late body slow).response
          ≡ (handle dec fl kube state body run).response)
unfolding handle outcome_of run_decision
handle-admits_iff dec fl kube state body run timeout_ms latency_ms =
    (admits_iff dec fl kube state body run, refl)
