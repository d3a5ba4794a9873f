-- ===== src/Webhook/Handler.antt =====
-- webhook/handler.rs: the request path from the body of `POST /validate` to the response, under the
-- panic guard and the timeout. What the runtime does (a panic, the latency, the clock) is an input. The
-- guarded decision never awaits, so it is finished when the timeout first polls it.
pub mod Guarded
use emergency_ration_webhook.Common.{
  ℕ, String, Option, none, some, List, Bool, true, false, if◌then◌else◌,
}
use emergency_ration_webhook.Common.Int.{ℤ}
use emergency_ration_webhook.Common.Result.{Result, ok, err, ◌>>=◌, or_err, and_then, unwrap_or}
use emergency_ration_webhook.Common.Float.{Float}
use emergency_ration_webhook.K8s.{AdmissionRequest, AdmissionResponse, AdmissionApi, Store}
use emergency_ration_webhook.Crd.Allocation.{Allocation}
use emergency_ration_webhook.Crd.ClusterCapacity.{ClusterCapacity}
use emergency_ration_webhook.Metrics.{MetricCall}
use emergency_ration_webhook.Webhook.Failure.{
  AdmissionError, deserialisation_failure, timeout, internal_error, unknown,
}
use emergency_ration_webhook.Webhook.Summary.{error, RequestMeta, DecisionOutcome, reject_outcome}
use emergency_ration_webhook.Webhook.Evaluate.{evaluate}
use emergency_ration_webhook.Webhook.Observe.{LogEvent, emit_log, record_metrics}

-- What the handler uses of serde_json and of kube's `AdmissionReview`.
pub record Decoder : Type 1 where
  pub Body : Type 0
  pub Review : Type 0
  pub Value : Type 0
  -- `serde_json::from_slice::<AdmissionReview<Pod>>`, with the error's text
  pub review : Body → Result String Review
  -- `AdmissionReview::try_into::<AdmissionRequest<Pod>>`
  pub request : Review → Option AdmissionRequest
  -- `serde_json::from_slice::<Value>`
  pub value : Body → Option Value
  pub null : Value
  -- `Value::get`, `Value::as_str`
  pub get : Value → String → Option Value
  pub as_str : Value → Option String

-- The shared state, with the clock's reading in place of the clock.
pub record AppState (F : Type 0) : Type 0 where
  pub allocation_store : Store (Allocation F)
  pub capacity_store : Store ClusterCapacity
  pub decision_timeout_ms : ℕ
  pub capacity_freshness_timeout_secs : ℕ
  pub clock : ℤ
  pub webhook_namespace : String

-- What happens to one run of the decision.
pub record Run : Type 0 where
  pub panics : Bool
  pub latency_ms : ℤ

-- What `handle` returns and emits.
pub record Reply (F : Type 0) : Type 0 where
  pub response : AdmissionResponse
  pub events : List LogEvent
  pub calls : List (MetricCall F)

abbrev pub with_catch_unwind : {R : Type 0} → Bool → R → Result AdmissionError R
with_catch_unwind panics r = if panics then err internal_error else ok r

-- A future, by what it does: it is finished at its first poll, or it waits, and whether a deadline of
-- some milliseconds passes before it is finished is up to the runtime.
pub data Future (R : Type 0) : Type 0 where
  ready : R → Future R
  waiting : (elapses : ℕ → Bool) (r : R) → Future R

-- `tokio::time::timeout` polls the future before it looks at the deadline.
abbrev pub with_timeout : {R : Type 0} → Future R → ℕ → Result AdmissionError R
with_timeout (ready r) timeout_ms = ok r
with_timeout (waiting elapses r) timeout_ms =
    if elapses timeout_ms then err (timeout timeout_ms) else ok r

-- An error that is an `AdmissionError` already, or a foreign one, by its text.
pub data ForeignError : Type 0 where
  known : AdmissionError → ForeignError
  other : String → ForeignError

abbrev pub classify_error : ForeignError → AdmissionError
classify_error (known e) = e
classify_error (other text) = unknown text

module _ (dec : Decoder) where
  unfoldable pub request_meta : dec.Body → RequestMeta
  request_meta body =
      let value = unwrap_or (dec.value body) dec.null in
      let request = unwrap_or (dec.get value "request") dec.null in
      let str_field = λ (key : String). unwrap_or (and_then (dec.get request key) dec.as_str) "" in
      record {
        uid = str_field "uid";
        namespace = str_field "namespace";
        name = str_field "name";
        operation = str_field "operation";
      }

  abbrev map_err : {A : Type 0} → Result String A → Result AdmissionError A
  map_err (ok a) = ok a
  map_err (err text) = err (deserialisation_failure text)

  -- The request that a body decodes to.
  unfoldable pub decode : dec.Body → Result AdmissionError AdmissionRequest
  decode body = do
    review ← map_err (dec.review body)
    or_err (dec.request review) (deserialisation_failure "request field missing")

  module _ (fl : Float) (kube : AdmissionApi) (state : AppState fl.F) where
    abbrev pub outcome_for : AdmissionRequest → DecisionOutcome
    outcome_for request =
        evaluate fl kube request state.allocation_store state.capacity_store state.clock
          state.capacity_freshness_timeout_secs state.webhook_namespace

    unfoldable pub run_decision : dec.Body → Result AdmissionError DecisionOutcome
    run_decision body = do request ← decode body; ok (outcome_for request)

    abbrev flatten :
        Result AdmissionError (Result AdmissionError DecisionOutcome)
        → Result AdmissionError DecisionOutcome
    flatten (ok r) = r
    flatten (err e) = err e

    -- The match on the guarded result.
    abbrev conclude :
        RequestMeta
        → Result AdmissionError (Result AdmissionError DecisionOutcome)
        → DecisionOutcome
    conclude meta (ok (ok outcome)) = outcome
    conclude meta (ok (err e)) = reject_outcome kube e meta error "enforce"
    conclude meta (err e) = reject_outcome kube e meta error "enforce"

    unfoldable pub outcome_of : dec.Body → Run → DecisionOutcome
    outcome_of body run =
        let guarded = ready (flatten (with_catch_unwind run.panics (run_decision body))) in
        let outcome =
          conclude (request_meta body) (with_timeout guarded state.decision_timeout_ms) in
        record outcome { summary = record (outcome.summary) { latency_ms = run.latency_ms } }

    unfoldable pub handle : dec.Body → Run → Reply fl.F
    handle body run =
        let outcome = outcome_of body run in
        record {
          response = outcome.response;
          events = emit_log outcome.summary;
          calls = record_metrics fl outcome.summary;
        }
