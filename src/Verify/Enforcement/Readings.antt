-- ===== src/Verify/Enforcement/Readings.antt =====
-- bin/erw-verify/scenarios/enforcement.rs: the scenarios S7 and S8, which only read.
use emergency_ration_webhook.Common.{
  String, Option, none, some, List, [], ◌∷◌, ◌++◌, Bool, ◌&&◌, length, if◌then◌else◌,
}
use emergency_ration_webhook.Common.Int.{ℤ, pos, ◌+ℤ◌, ◌==ℤ◌}
use emergency_ration_webhook.Common.Word.{wrap64, wrap32}
use emergency_ration_webhook.Common.Float.{Float}
use emergency_ration_webhook.Common.Result.{Result, ok, err}
use emergency_ration_webhook.Common.Task.{Task, ◌>>=◌, pure, fail, call, attempt}
use emergency_ration_webhook.Common.Text.{codes, Text, same, trim, contains, show_ℤ, show_ℕ}
use emergency_ration_webhook.K8s.{Dict, get, Node}
use emergency_ration_webhook.Crd.ClusterCapacity.{ClusterCapacityStatus}
use emergency_ration_webhook.Resources.Quantity.{parse_cpu, parse_memory}
use emergency_ration_webhook.Controllers.Supply.{amount}
use emergency_ration_webhook.Verify.Args.{to_ascii_lowercase}
use emergency_ration_webhook.Verify.Enforcement.{Cluster, or_fail}
use emergency_ration_webhook.Verify.Enforcement.Scenarios.{proxy_get, flag_text}

module _ (fl : Float) where
  abbrev pub add_reported : ℤ × ℤ → Option (Dict String) → ℤ × ℤ
  add_reported acc none = acc
  add_reported acc (some allocatable) = (
    wrap64 (acc.0 +ℤ amount (parse_cpu fl) (get "cpu" allocatable)),
    wrap64 (acc.1 +ℤ amount (parse_memory fl) (get "memory" allocatable)),
  )

  -- The loop of S7 over the nodes.
  unfoldable pub sum_reported : ℤ × ℤ → List Node → ℤ × ℤ
  sum_reported acc [] = acc
  sum_reported acc (node ∷ nodes) = sum_reported (add_reported acc node.allocatable) nodes

  -- The three comparisons of S7.
  record Comparison : Type 0 where
    cpu_ok : Bool
    mem_ok : Bool
    count_ok : Bool

  abbrev compare_status : ClusterCapacityStatus → List Node → Comparison
  compare_status status nodes =
      let (cpu, mem) = sum_reported (pos 0, pos 0) nodes in
      record {
        cpu_ok = status.total_allocatable_cpu_milli ==ℤ cpu;
        mem_ok = status.total_allocatable_memory_bytes ==ℤ mem;
        count_ok = status.node_count ==ℤ wrap32 (pos (length nodes));
      }

  unfoldable pub matches_nodes : ClusterCapacityStatus → List Node → Bool
  unfolding sum_reported
  matches_nodes status nodes =
      let c = compare_status status nodes in c.cpu_ok && c.mem_ok && c.count_ok

  -- The text of a match, and of a mismatch.
  abbrev match_text : ClusterCapacityStatus → List Node → Text
  match_text status nodes =
      let (cpu, mem) = sum_reported (pos 0, pos 0) nodes in
      codes "CRD matches nodes: cpu="
      ++ (codes (show_ℤ cpu)
          ++ (codes "m, memory="
              ++ (codes (show_ℤ mem)
                  ++ (codes " bytes, " ++ (codes (show_ℤ status.node_count) ++ codes " nodes")))))

  abbrev mismatch_text : ClusterCapacityStatus → List Node → Text
  mismatch_text status nodes =
      let (cpu, mem) = sum_reported (pos 0, pos 0) nodes in
      let c = compare_status status nodes in
      codes "mismatch (cpu CRD="
      ++ (codes (show_ℤ status.total_allocatable_cpu_milli)
          ++ (codes "m nodes="
              ++ (codes (show_ℤ cpu)
                  ++ (codes "m ok="
                      ++ (flag_text c.cpu_ok
                          ++ (codes "; mem CRD="
                              ++ (codes (show_ℤ status.total_allocatable_memory_bytes)
                                  ++ (codes " bytes nodes="
                                      ++ (codes (show_ℤ mem)
                                          ++ (codes " bytes ok="
                                              ++ (flag_text c.mem_ok
                                                  ++ (codes "; nodes CRD="
                                                      ++ (codes (show_ℤ status.node_count)
                                                          ++ (codes " actual="
                                                            ++ (codes (show_ℕ (length nodes))
                                                            ++ (codes " ok="
                                                            ++ (flag_text c.count_ok
                                                            ++ codes ")")))))))))))))))))

  module _ (cluster : Cluster fl.F) where
    open cluster use {World}

    unfoldable pub or_missing : Option ClusterCapacityStatus → Task World ClusterCapacityStatus
    or_missing none = fail (codes "ClusterCapacity has no status yet")
    or_missing (some status) = pure status

    unfoldable pub s7 : Task World Text
    unfolding matches_nodes
    s7 = do
      answer ← call cluster.get_capacity
      capacity ← or_fail cluster (codes "getting ClusterCapacity") answer
      status ← or_missing capacity.status
      listed ← call cluster.list_nodes
      nodes ← or_fail cluster (codes "listing nodes") listed
      if matches_nodes status nodes
          then pure (match_text status nodes)
          else fail (mismatch_text status nodes)

module _ {F : Type 0} (cluster : Cluster F) where
  open cluster use {World}

  -- `map_err` at the path.
  unfoldable pub at_path : Text → Result Text Text → Task World Text
  at_path path (ok body) = pure body
  at_path path (err e) = fail (codes "/" ++ (path ++ (codes ": " ++ e)))

  unfoldable pub check_metrics : Text → Task World Text
  unfolding contains
  check_metrics metrics =
      if contains (codes "capacity_admission_verdicts_total") metrics
      then pure (codes "/healthz=ok; /metrics exposes capacity_admission_verdicts_total")
      else fail (codes "/metrics is missing capacity_admission_verdicts_total")

  unfoldable pub fetch_metrics : Task World Text
  unfolding proxy_get contains
  fetch_metrics = do
    answer ← attempt (proxy_get cluster (codes "metrics"))
    metrics ← at_path (codes "metrics") answer
    check_metrics metrics

  abbrev pub after_health : (Text → Text) → Text → Task World Text
  after_health debug health =
      if same (to_ascii_lowercase (trim health)) (codes "ok")
      then fetch_metrics
      else fail (codes "/healthz returned " ++ (debug health ++ codes ", expected \"ok\""))

  -- `debug` is the `Debug` form of a text.
  unfoldable pub s8 : (Text → Text) → Task World Text
  unfolding proxy_get contains
  s8 debug = do
    answer ← attempt (proxy_get cluster (codes "healthz"))
    health ← at_path (codes "healthz") answer
    after_health debug health
