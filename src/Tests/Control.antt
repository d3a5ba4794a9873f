-- ===== src/Tests/Control.antt =====
-- Runs of the controllers.
use emergency_ration_webhook.Common.Lists.{AnyOf}
use emergency_ration_webhook.Common.{
  String, none, some, List, [], ◌∷◌, Bool, true, false, ◌≡◌, ◌↔◌, arith,
}
use emergency_ration_webhook.K8s.{get, Node, LabelSelector, Pod}
use emergency_ration_webhook.Controllers.NodeFilter.{selector_is_empty, is_node_counted}
use emergency_ration_webhook.Controllers.NodeFilter.Counting.{
  Excludes, is_node_counted_iff, is_node_counted-unlabelled,
}

abbrev pods : List Pod
pods = record { spec = none; phase = some "Running" } ∷ []

abbrev node_of : Bool → String → Node
node_of unschedulable role = record {
  labels = some (("role", role) ∷ []);
  unschedulable = some unschedulable;
  allocatable = some (("cpu", "4") ∷ ("memory", "1024") ∷ []);
}

abbrev pub nodes : List Node
nodes = node_of false "worker" ∷ node_of true "worker" ∷ node_of false "infra" ∷ []

-- The nodes whose role is infra.
abbrev infra : LabelSelector
infra = record { match_labels = some (("role", "infra") ∷ []); match_expressions = none }

-- The nodes that have no role.
abbrev no_role : LabelSelector
no_role = record {
  match_labels = none;
  match_expressions = some (record { key = "role"; operator = "DoesNotExist"; values = none } ∷ []);
}

is_node_counted_iff_example :
    (is_node_counted false (some (("role", "infra") ∷ [])) (some (infra ∷ [])) ≡ true)
    ↔ ((◌≡◌ {A = Bool} false false) × ¬ AnyOf (Excludes (("role", "infra") ∷ [])) (infra ∷ []))
is_node_counted_iff_example = is_node_counted_iff false (("role", "infra") ∷ []) (infra ∷ [])

no_role-Excludes : Excludes [] no_role
unfolding selector_is_empty get
no_role-Excludes = ground arith

is_node_counted-unlabelled_example :
    (is_node_counted false (some []) (some (no_role ∷ [])) ≡ false)
    × (is_node_counted false none (some (no_role ∷ [])) ≡ true)
is_node_counted-unlabelled_example = is_node_counted-unlabelled no_role no_role-Excludes
