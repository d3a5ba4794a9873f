-- ===== src/Tests/Samples.antt =====
-- Sample data: floats that are integers, an admission API, stores that are lists, a cluster with a
-- budget, and requests.
use emergency_ration_webhook.Common.{
  String, Option, none, some, [], ◌∷◌, Bool, true, false, ◌≡◌, refl, Bool-cases, inl, inr,
  if◌then◌else◌,
}
use emergency_ration_webhook.Common.Int.{
  ℤ, pos, ltb_ℤ, ◌*ℤ◌, ◌-ℤ◌, tdiv, pos_part, max_ℤ, min_ℤ, negsuc,
}
use emergency_ration_webhook.Common.Word.{saturate}
use emergency_ration_webhook.Common.Result.{ok, err}
use emergency_ration_webhook.Common.Text.{codes, parse_i64}
use emergency_ration_webhook.Common.Float.{Float}
use emergency_ration_webhook.K8s.{create, AdmissionRequest, AdmissionApi, Store, Dict}
use emergency_ration_webhook.Crd.Allocation.{
  enforce, AllocationSpec, AllocationStatus, Allocation, cluster_allocation_name,
}
use emergency_ration_webhook.Crd.ClusterCapacity.{
  ClusterCapacity, ClusterCapacityStatus, cluster_capacity_name,
}
use emergency_ration_webhook.Webhook.Handler.{Decoder, AppState, Run}

-- Floats without a fraction.
abbrev pub whole : Float
whole = record {
  F = ℤ;
  parse = λ text. parse_i64 (codes text);
  of_ℤ = λ z. z;
  lt = ltb_ℤ;
  mul = ◌*ℤ◌;
  sub = ◌-ℤ◌;
  div = λ a b. tdiv a (pos_part b);
  fmax = max_ℤ;
  round = λ x. x;
  floor = λ x. x;
  to_i32 = λ x. max_ℤ (negsuc 2147483647) (min_ℤ x (pos 2147483647));
  to_i64 = saturate;
  to_i128 = λ z. z;
}

abbrev pub plain_api : AdmissionApi
plain_api = record {
  admit = λ request. record {
    uid = request.uid;
    allowed = true;
    result = record { code = 200; message = ""; reason = "" };
    warnings = none;
  };
  invalid = λ text. record {
    uid = "";
    allowed = false;
    result = record { code = 400; message = text; reason = "" };
    warnings = none;
  };
  failure = λ message reason. record { code = 500; message = message; reason = reason };
  with_code = λ code status. record status { code = code };
  admit-allowed = λ _. refl;
  admit-uid = λ _. refl;
  admit-warnings = λ _. refl;
  invalid-warnings = λ _. refl;
  with_code-code = λ _ _. refl;
  with_code-message = λ _ _. refl;
  failure-message = λ _ _. refl;
}

-- A store that holds at most one object.
abbrev pick : {A : Type 0} → (A → Bool) → Option A → Option A
pick p none = none
pick p (some a) = if p a then some a else none

pub pick_sound : {A : Type 0} (o : Option A) (p : A → Bool) {a : A} → pick p o ≡ some a → p a ≡ true
pick_sound none p h = cc
pick_sound (some a) p {a = b} h = elim (Bool-cases (p a)) [
  | inl y ↦ cc (y, rw y at h)
  | inr n ↦ cc (rw n at h)
]

abbrev pub store_of : {A : Type 0} → Option A → Store A
store_of held = record { find = λ p. pick p held; find_sound = pick_sound held }

abbrev pub request_of : String → String → Dict String → AdmissionRequest
request_of name ns amounts = record {
  uid = "u-1";
  name = name;
  namespace = some ns;
  operation = create;
  object = some (record {
    spec = some (record {
      containers =
          record { resources = some (record { requests = some amounts; limits = none }) } ∷ [];
      init_containers = none;
      priority_class_name = none;
    });
    phase = none;
  });
  old_object = none;
}

-- A pod that fits into the sample budget, and one that asks for too much CPU.
abbrev pub small : AdmissionRequest
small = request_of "small" "shop" (("cpu", "100m") ∷ ("memory", "1000") ∷ [])

abbrev pub large : AdmissionRequest
large = request_of "large" "shop" (("cpu", "2") ∷ ("memory", "1000") ∷ [])

abbrev pub budget_spec : AllocationSpec
budget_spec = record {
  budget_percent = pos 80;
  enforcement_mode = some enforce;
  excluded_namespaces = some ("kube-system" ∷ []);
  excluded_priority_classes = none;
  cpu_budget_percent = none;
  memory_budget_percent = none;
}

abbrev pub budget_status : AllocationStatus ℤ
budget_status = record {
  allocated_cpu_milli = pos 500;
  allocated_memory_bytes = pos 2000;
  ceiling_cpu_milli = pos 800;
  ceiling_memory_bytes = pos 8000;
  utilization_percent_cpu = pos 0;
  utilization_percent_memory = pos 0;
  last_updated = "1970-01-01T00:00:10Z";
  effective_cpu_budget_percent = pos 80;
  effective_memory_budget_percent = pos 80;
}

abbrev pub budget : Allocation ℤ
budget = record { name = cluster_allocation_name; spec = budget_spec; status = some budget_status }

abbrev pub supply : ClusterCapacityStatus
supply = record {
  total_allocatable_cpu_milli = pos 1000;
  total_allocatable_memory_bytes = pos 10000;
  node_count = pos 1;
  last_updated = "1970-01-01T00:00:10Z";
  excluded_node_count = pos 0;
  excluded_by_unschedulable = pos 0;
  excluded_by_selector = pos 0;
}

abbrev pub capacity : ClusterCapacity
capacity = record {
  name = cluster_capacity_name;
  spec = record { node_selectors = none };
  status = some supply;
}

abbrev pub budgets : Store (Allocation ℤ)
budgets = store_of (some budget)

abbrev pub capacities : Store ClusterCapacity
capacities = store_of (some capacity)

-- A body that is its own review.
abbrev pub direct : Decoder
direct = record {
  Body = Option AdmissionRequest;
  Review = AdmissionRequest;
  Value = Unit;
  review = elim [ none ↦ err "expected value" | some request ↦ ok request ];
  request = some;
  value = λ _. none;
  null = tt;
  get = λ _ _. none;
  as_str = λ _. none;
}

abbrev pub state : AppState ℤ
state = record {
  allocation_store = budgets;
  capacity_store = capacities;
  decision_timeout_ms = 100;
  capacity_freshness_timeout_secs = 30;
  clock = pos 15;
  webhook_namespace = "capacity-admission";
}

abbrev pub calm_run : Run
calm_run = record { panics = false; latency_ms = pos 1 }
