-- ===== src/Verify/Enforcement/Tracking.antt =====
-- The scenario S7 of bin/erw-verify/scenarios/enforcement.rs against controllers/node_capacity.rs: it sums
-- all nodes, where the controller leaves some out.
use emergency_ration_webhook.Common.{
  ◌≤◌, String, Option, some, List, [], ◌∷◌, Bool, true, ◌&&◌, ◌≡◌, ◌↔◌, ◌∙◌, refl, sym, ap, arith,
  length, Bool-cases, Option-cases, inl, inr,
}
use emergency_ration_webhook.Common.Lists.{All}
use emergency_ration_webhook.Common.Int.{ℤ, pos, ◌==ℤ◌}
use emergency_ration_webhook.Common.Word.{wrap32, wrap32-eq}
use emergency_ration_webhook.Common.Float.{Float}
use emergency_ration_webhook.K8s.{Node, LabelSelector}
use emergency_ration_webhook.Crd.ClusterCapacity.{ClusterCapacityStatus}
use emergency_ration_webhook.Controllers.NodeFilter.{is_node_counted}
use emergency_ration_webhook.Controllers.Supply.{
  Tally, empty_tally, is_unschedulable, add_node, sum_nodes, effective_selectors,
  sum_node_allocatable, capacity_status,
}
use emergency_ration_webhook.Controllers.Supply.Breakdown.{
  count, is_included, sum_node_allocatable-IsTallied,
}
use emergency_ration_webhook.Verify.Enforcement.Readings.{add_reported, sum_reported, matches_nodes}

count-le : {A : Type 0} (p : A → Bool) (xs : List A) → count p xs ≤ length xs
count-le p [] = omega arith
count-le p (x ∷ xs) = ground (arith, count-le p xs)

-- As many pass as there are exactly if all pass.
count-length :
    {A : Type 0} (p : A → Bool) (xs : List A) → count p xs ≡ length xs → All (λ x. p x ≡ true) xs
count-length p [] h = tt
count-length p (x ∷ xs) h = elim (Bool-cases (p x)) [
  | inl y ↦ (y, count-length p xs (ground arith))
  | inr n ↦ ground (arith, count-le p xs)
]

length-count :
    {A : Type 0} (p : A → Bool) (xs : List A) → All (λ x. p x ≡ true) xs → count p xs ≡ length xs
length-count p [] h = refl
length-count p (x ∷ xs) (y, h) = ground (arith, length-count p xs h)

module _ (fl : Float) (sels : List LabelSelector) where
  -- Two tallies of the sums agree.
  abbrev Agrees : Tally → ℤ × ℤ → Type 0
  Agrees t acc = (t.cpu ≡ acc.0) × (t.memory ≡ acc.1)

  add_node-Agrees :
      (node : Node) (t : Tally) (acc : ℤ × ℤ)
      → is_included sels node ≡ true
      → Agrees t acc
      → Agrees (add_node fl sels node t) (add_reported fl acc node.allocatable)
  unfolding add_node
  add_node-Agrees node t acc y (k, l) = elim (Option-cases node.allocatable) [
    | inl absent ↦ ground arith
    | inr (allocatable, there) ↦
        let counted : is_node_counted (is_unschedulable node) node.labels (some sels) ≡ true =
          ground arith in
        rw (counted, there, k, l) (refl, refl)
  ]

  sum_nodes-Agrees :
      (nodes : List Node) (t : Tally) (acc : ℤ × ℤ)
      → All (λ n. is_included sels n ≡ true) nodes
      → Agrees t acc
      → Agrees (sum_nodes fl sels nodes t) (sum_reported fl acc nodes)
  unfolding sum_nodes sum_reported add_node
  sum_nodes-Agrees [] t acc h k = k
  sum_nodes-Agrees (node ∷ nodes) t acc (y, h) k =
      sum_nodes-Agrees nodes (add_node fl sels node t) (add_reported fl acc node.allocatable) h
        (add_node-Agrees node t acc y k)

eq_same : {y z : ℤ} → y ≡ z → (y ==ℤ z) ≡ true
eq_same h = rw h (ground arith)

all_hold : (a b c : Bool) → a ≡ true → b ≡ true → c ≡ true → (a && b && c) ≡ true
all_hold a b c h k l = ground arith

last_holds : (a b c : Bool) → (a && b && c) ≡ true → c ≡ true
last_holds a b c h = ground arith

matches-count :
    (fl : Float) (status : ClusterCapacityStatus) (nodes : List Node)
    → matches_nodes fl status nodes ≡ true
    → (status.node_count ==ℤ wrap32 (pos (length nodes))) ≡ true
unfolding matches_nodes
matches-count fl status nodes h =
    let sums = sum_reported fl (pos 0, pos 0) nodes in
    last_holds (status.total_allocatable_cpu_milli ==ℤ sums.0)
      (status.total_allocatable_memory_bytes ==ℤ sums.1)
      (status.node_count ==ℤ wrap32 (pos (length nodes))) h

-- The status that the supply controller writes for up to 2^31 - 1 nodes passes the comparison of S7 on
-- the same nodes exactly when the controller counts every one of them: a node that is unschedulable, that
-- a selector excludes, or that publishes no resources makes S7 fail on a status that is right.
pub capacity_status-matches_nodes :
    (fl : Float) (now : String) (nodes : List Node) (selectors : Option (List LabelSelector))
    → length nodes ≤ 2147483647
    → (matches_nodes fl (capacity_status now (sum_node_allocatable fl nodes selectors)) nodes
        ≡ true)
      ↔ All (λ n. is_included (effective_selectors selectors) n ≡ true) nodes
unfolding matches_nodes capacity_status sum_node_allocatable
capacity_status-matches_nodes fl now nodes selectors h =
    let sels = effective_selectors selectors in
    let (counted, _, _) = sum_node_allocatable-IsTallied fl nodes selectors h in
    let size : wrap32 (pos (length nodes)) ≡ pos (length nodes) =
      wrap32-eq (pos (length nodes)) (ground arith) in
    (
      (λ e.
          let third =
            matches-count fl (capacity_status now (sum_node_allocatable fl nodes selectors)) nodes
              e in
          let same = rw (counted, size) at third in
          count-length (is_included sels) nodes (ground arith)),
      λ all.
          let (c, m) = sum_nodes-Agrees fl sels nodes empty_tally (pos 0, pos 0) all (refl, refl) in
          all_hold _ _ _ (eq_same c) (eq_same m)
            (eq_same (counted ∙ (ap pos (length-count (is_included sels) nodes all) ∙ sym size))),
    )
