-- ===== src/Controllers/Supply.antt =====
-- controllers/node_capacity.rs: the supply side.
pub mod Run
pub mod Breakdown
pub mod Reconcile
use emergency_ration_webhook.Common.{
  String, Option, none, some, List, [], ◌∷◌, Bool, false, if◌then◌else◌,
}
use emergency_ration_webhook.Common.Int.{ℤ, pos, ◌+ℤ◌}
use emergency_ration_webhook.Common.Word.{wrap64, wrap32}
use emergency_ration_webhook.Common.Result.{Result, ok, err, unwrap_or}
use emergency_ration_webhook.Common.Float.{Float}
use emergency_ration_webhook.K8s.{Dict, get, Node, LabelSelector}
use emergency_ration_webhook.Crd.ClusterCapacity.{
  ClusterCapacity, ClusterCapacitySpec, ClusterCapacityStatus, cluster_capacity_name,
}
use emergency_ration_webhook.Resources.Quantity.{QuantityParseError, parse_cpu, parse_memory}
use emergency_ration_webhook.Controllers.NodeFilter.{
  validate_selector, ExclusionBreakdown, excluded_node_count, is_node_counted,
}
use emergency_ration_webhook.Controllers.Singleton.{KubeError, Api, is_not_found, ensure_singleton}

abbrev keep_if_ok : {E A B : Type 0} → Result E A → B → List B → List B
keep_if_ok (ok a) b bs = b ∷ bs
keep_if_ok (err e) b bs = bs

unfoldable pub valid_selectors : List LabelSelector → List LabelSelector
valid_selectors [] = []
valid_selectors (sel ∷ sels) = keep_if_ok (validate_selector sel) sel (valid_selectors sels)

abbrev pub effective_selectors : Option (List LabelSelector) → List LabelSelector
effective_selectors none = []
effective_selectors (some sels) = valid_selectors sels

-- The running sums of `sum_node_allocatable`.
pub record Tally : Type 0 where
  pub cpu : ℤ
  pub memory : ℤ
  pub breakdown : ExclusionBreakdown

abbrev pub empty_tally : Tally
empty_tally = record {
  cpu = pos 0;
  memory = pos 0;
  breakdown = record {
    counted = pos 0;
    excluded_unschedulable = pos 0;
    excluded_by_selector = pos 0;
  };
}

-- `x += 1` on an i32.
abbrev pub bump : ℤ → ℤ
bump z = wrap32 (z +ℤ pos 1)

abbrev ok_or_zero : Result QuantityParseError ℤ → ℤ
ok_or_zero (ok z) = z
ok_or_zero (err e) = pos 0

-- What a resource of `allocatable` adds: 0 if absent or unparseable.
abbrev pub amount : (String → Result QuantityParseError ℤ) → Option String → ℤ
amount parse none = pos 0
amount parse (some q) = ok_or_zero (parse q)

abbrev pub is_unschedulable : Node → Bool
is_unschedulable node = unwrap_or node.unschedulable false

abbrev pub exclude : Bool → ExclusionBreakdown → ExclusionBreakdown
exclude unschedulable b =
    if unschedulable
    then record b { excluded_unschedulable = bump b.excluded_unschedulable }
    else record b { excluded_by_selector = bump b.excluded_by_selector }

module _ (fl : Float) where
  abbrev pub include : Option (Dict String) → Tally → Tally
  include none t = t
  include (some allocatable) t =
      let b = t.breakdown in
      record {
        cpu = wrap64 (t.cpu +ℤ amount (parse_cpu fl) (get "cpu" allocatable));
        memory = wrap64 (t.memory +ℤ amount (parse_memory fl) (get "memory" allocatable));
        breakdown = record b { counted = bump b.counted };
      }

  -- One round of the loop of `sum_node_allocatable`.
  unfoldable pub add_node : List LabelSelector → Node → Tally → Tally
  add_node selectors node t =
      if is_node_counted (is_unschedulable node) node.labels (some selectors)
      then include node.allocatable t
      else record t { breakdown = exclude (is_unschedulable node) t.breakdown }

  unfoldable pub sum_nodes : List LabelSelector → List Node → Tally → Tally
  sum_nodes selectors [] t = t
  sum_nodes selectors (node ∷ nodes) t = sum_nodes selectors nodes (add_node selectors node t)

  unfoldable pub sum_node_allocatable : List Node → Option (List LabelSelector) → Tally
  sum_node_allocatable nodes selectors = sum_nodes (effective_selectors selectors) nodes empty_tally

-- The status that `patch_once` writes; `now` is the reading of `now_rfc3339`.
unfoldable pub capacity_status : String → Tally → ClusterCapacityStatus
capacity_status now t = record {
  total_allocatable_cpu_milli = t.cpu;
  total_allocatable_memory_bytes = t.memory;
  node_count = (t.breakdown).counted;
  last_updated = now;
  excluded_node_count = excluded_node_count t.breakdown;
  excluded_by_unschedulable = (t.breakdown).excluded_unschedulable;
  excluded_by_selector = (t.breakdown).excluded_by_selector;
}

abbrev pub default_capacity_singleton : ClusterCapacity
default_capacity_singleton = record {
  name = cluster_capacity_name;
  spec = record { node_selectors = none };
  status = none;
}

module _ (server : Api ClusterCapacity ClusterCapacityStatus) where
  abbrev selectors_of : Result KubeError ClusterCapacity → Option (List LabelSelector)
  selectors_of (ok cc) = (cc.spec).node_selectors
  selectors_of (err e) = none

  unfoldable pub read_selectors : server.Server → Option (List LabelSelector) × server.Server
  read_selectors s = let (result, s') = server.get s in (selectors_of result, s')

  -- The match on the first patch.
  abbrev pub after_patch :
      ClusterCapacityStatus
      → ClusterCapacityStatus
      → Result KubeError ClusterCapacity
      → server.Server
      → server.Server
  after_patch status again (ok cc) s = s
  after_patch status again (err e) s =
      if is_not_found e
      then (server.patch_status again (ensure_singleton server default_capacity_singleton s).1).1
      else s

  -- `patch_status`; each attempt stamps its own time.
  unfoldable pub patch_capacity_status : String → String → Tally → server.Server → server.Server
  patch_capacity_status now later t s =
      let (result, s') = server.patch_status (capacity_status now t) s in
      after_patch (capacity_status now t) (capacity_status later t) result s'

  -- `reconcile_now`: a failed node list patches zeros.
  abbrev pub tally_of : Float → Result KubeError (List Node) → Option (List LabelSelector) → Tally
  tally_of fl (ok nodes) selectors = sum_node_allocatable fl nodes selectors
  tally_of fl (err e) selectors = empty_tally

  unfoldable pub reconcile_now :
      Float → Result KubeError (List Node) → String → String → server.Server → server.Server
  reconcile_now fl listed now later s =
      let (selectors, s') = read_selectors s in
      patch_capacity_status now later (tally_of fl listed selectors) s'
