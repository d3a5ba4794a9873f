-- ===== src/Webhook/Failure.antt =====
-- webhook/error.rs: the reasons to reject, and the response that each becomes.
use Prim.Native.String
use emergency_ration_webhook.Common.{ℕ, String, List, [], ◌∷◌, false, map}
use emergency_ration_webhook.Common.Int.{ℤ}
use emergency_ration_webhook.Common.Text.{show_ℕ, show_ℤ}
use emergency_ration_webhook.K8s.{AdmissionResponse, AdmissionApi}

infixr 60 ◌<>◌
abbrev pub ◌<>◌ : String → String → String
s <> t = String.◌++◌ s t

pub data ResourceType : Type 0 where
  cpu memory : ResourceType

pub record BudgetViolation : Type 0 where
  pub resource : ResourceType
  pub allocated : ℤ
  pub requested : ℤ
  pub projected : ℤ
  pub ceiling : ℤ

abbrev unit_line : String → String → BudgetViolation → String
unit_line name unit v =
    name
    <> " budget exceeded: allocated "
    <> show_ℤ v.allocated
    <> unit
    <> ", requested "
    <> show_ℤ v.requested
    <> unit
    <> ", projected "
    <> show_ℤ v.projected
    <> unit
    <> ", ceiling "
    <> show_ℤ v.ceiling
    <> unit

abbrev line_of : ResourceType → BudgetViolation → String
line_of cpu v = unit_line "CPU" "m" v
line_of memory v = unit_line "memory" " bytes" v

unfoldable pub message_line : BudgetViolation → String
unfolding show_ℤ
message_line v = line_of v.resource v

-- `join("\n")`.
unfoldable pub join_lines : List String → String
join_lines [] = ""
join_lines (s ∷ []) = s
join_lines (s ∷ t ∷ rest) = s <> "\n" <> join_lines (t ∷ rest)

pub data MissingCapacityData : Type 0 where
  allocation cluster_capacity : MissingCapacityData

abbrev pub detail : MissingCapacityData → String
detail allocation = "allocation state not initialised"
detail cluster_capacity = "cluster capacity state not initialised"

pub data AdmissionError : Type 0 where
  over_budget : (violations : List BudgetViolation) → AdmissionError
  capacity_data_stale : (age_secs threshold_secs : ℕ) → AdmissionError
  capacity_data_missing : (which : MissingCapacityData) → AdmissionError
  deserialisation_failure : (detail : String) → AdmissionError
  quantity_parse_failure : (field value : String) → AdmissionError
  timeout : (timeout_ms : ℕ) → AdmissionError
  internal_error : AdmissionError
  unknown : (detail : String) → AdmissionError

abbrev pub status_code : AdmissionError → ℕ
status_code (over_budget vs) = 403
status_code (deserialisation_failure d) = 400
status_code (quantity_parse_failure f v) = 400
status_code (capacity_data_stale a t) = 500
status_code (capacity_data_missing w) = 500
status_code (timeout t) = 500
status_code internal_error = 500
status_code (unknown d) = 500

abbrev pub slug : AdmissionError → String
slug (over_budget vs) = "over_budget"
slug (capacity_data_stale a t) = "capacity_data_stale"
slug (capacity_data_missing w) = "capacity_data_missing"
slug (deserialisation_failure d) = "deserialisation_failure"
slug (quantity_parse_failure f v) = "quantity_parse_failure"
slug (timeout t) = "timeout"
slug internal_error = "internal_error"
slug (unknown d) = "unknown"

abbrev pub reason : AdmissionError → String
reason (over_budget vs) = "OverBudget"
reason (capacity_data_stale a t) = "CapacityDataStale"
reason (capacity_data_missing w) = "CapacityDataMissing"
reason (deserialisation_failure d) = "DeserialisationFailure"
reason (quantity_parse_failure f v) = "QuantityParseFailure"
reason (timeout t) = "Timeout"
reason internal_error = "InternalError"
reason (unknown d) = "Unknown"

unfoldable pub message : AdmissionError → String
unfolding message_line join_lines show_ℕ
message (over_budget vs) = join_lines (map message_line vs)
message (capacity_data_stale a t) =
    "capacity data unavailable: last refresh "
    <> show_ℕ a
    <> "s ago exceeds "
    <> show_ℕ t
    <> "s threshold"
message (capacity_data_missing w) = "capacity data unavailable: " <> detail w
message (deserialisation_failure d) = "admission request malformed: " <> d
message (quantity_parse_failure f v) =
    "cannot parse resource quantity in pod spec: " <> f <> "=" <> v
message (timeout t) = "admission decision timed out after " <> show_ℕ t <> "ms"
message internal_error = "internal error: panic in admission handler"
message (unknown d) = "internal error: " <> d

module _ (kube : AdmissionApi) where
  -- `From<AdmissionError> for AdmissionResponse`.
  unfoldable pub from_error : AdmissionError → AdmissionResponse
  from_error error = record (kube.invalid (reason error)) {
    allowed = false;
    result = kube.with_code (status_code error) (kube.failure (message error) (reason error));
  }

  unfoldable pub into_response : AdmissionError → String → AdmissionResponse
  unfolding from_error
  into_response error uid = record (from_error error) { uid = uid }
