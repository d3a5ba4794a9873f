-- ===== src/K8s.antt =====
-- The Kubernetes and kube types that the source reads (crates k8s-openapi and kube), cut down to
-- the fields that it touches, and the two interfaces of kube that the webhook calls.
use emergency_ration_webhook.Common.{
  ℕ, String, Option, none, some, List, [], ◌∷◌, Bool, true, ◌≡◌, ◌==ˢ◌, if◌then◌else◌,
}

-- A `BTreeMap<String, _>`: its entries, and `get`.
abbrev pub Dict : Type 0 → Type 0
Dict V = List (String × V)

unfoldable pub get : {V : Type 0} → String → Dict V → Option V
get k [] = none
get k ((j, v) ∷ m) = if j ==ˢ k then some v else get k m

pub record Resources : Type 0 where
  pub requests : Option (Dict String)
  pub limits : Option (Dict String)

pub record Container : Type 0 where
  pub resources : Option Resources

pub record PodSpec : Type 0 where
  pub containers : List Container
  pub init_containers : Option (List Container)
  pub priority_class_name : Option String

pub record Pod : Type 0 where
  pub spec : Option PodSpec
  -- `status.phase`, absent where `status` is
  pub phase : Option String

pub record LabelRequirement : Type 0 where
  pub key : String
  pub operator : String
  pub values : Option (List String)

pub record LabelSelector : Type 0 where
  pub match_labels : Option (Dict String)
  pub match_expressions : Option (List LabelRequirement)

pub record Node : Type 0 where
  -- `metadata.labels`
  pub labels : Option (Dict String)
  -- `spec.unschedulable`, absent where `spec` is
  pub unschedulable : Option Bool
  -- `status.allocatable`, absent where `status` is
  pub allocatable : Option (Dict String)

pub data Operation : Type 0 where
  create update delete connect : Operation

pub record AdmissionRequest : Type 0 where
  pub uid : String
  pub name : String
  pub namespace : Option String
  pub operation : Operation
  pub object : Option Pod
  pub old_object : Option Pod

-- `kube::core::Status`, by the fields that a failure sets.
pub record Status : Type 0 where
  pub code : ℕ
  pub message : String
  pub reason : String

pub record AdmissionResponse : Type 0 where
  pub uid : String
  pub allowed : Bool
  pub result : Status
  pub warnings : Option (List String)

-- The constructors of `kube::core::admission` and `Status` that the webhook calls, with what their
-- documentation says of them.
pub record AdmissionApi : Type 0 where
  -- `AdmissionResponse::from(&AdmissionRequest)`
  pub admit : AdmissionRequest → AdmissionResponse
  -- `AdmissionResponse::invalid(reason)`
  pub invalid : String → AdmissionResponse
  -- `Status::failure(message, reason)`
  pub failure : String → String → Status
  -- `Status::with_code`
  pub with_code : ℕ → Status → Status
  pub admit-allowed : (r : AdmissionRequest) → (admit r).allowed ≡ true
  pub admit-uid : (r : AdmissionRequest) → (admit r).uid ≡ r.uid
  pub admit-warnings : (r : AdmissionRequest) → (admit r).warnings ≡ none
  pub invalid-warnings : (s : String) → (invalid s).warnings ≡ none
  pub with_code-code : (n : ℕ) (s : Status) → (with_code n s).code ≡ n
  pub with_code-message : (n : ℕ) (s : Status) → (with_code n s).message ≡ s.message
  pub failure-message : (m r : String) → (failure m r).message ≡ m

-- A snapshot of a reflector store: its objects, and `Store::find`, which returns some object that
-- passes the test, or none if there is no such object.
pub record Store (A : Type 0) : Type 0 where
  pub find : (A → Bool) → Option A
  pub find_sound : (p : A → Bool) {a : A} → find p ≡ some a → p a ≡ true
