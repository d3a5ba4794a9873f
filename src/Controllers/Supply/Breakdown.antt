-- ===== src/Controllers/Supply/Breakdown.antt =====
-- How the loop of controllers/node_capacity.rs tallies the nodes.
use emergency_ration_webhook.Common.{
  ℕ, suc, ◌+◌, ◌≤◌, String, Option, some, List, [], ◌∷◌, Bool, true, false, ◌&&◌, not, ◌≡◌, arith,
  length, refl, Bool-cases, Option-cases, inl, inr, if◌then◌else◌,
}
use emergency_ration_webhook.Common.Int.{ℤ, pos, ◌+ℤ◌}
use emergency_ration_webhook.Common.Word.{wrap32-eq}
use emergency_ration_webhook.Common.Result.{is_some}
use emergency_ration_webhook.Common.Float.{Float}
use emergency_ration_webhook.K8s.{Dict, Node, LabelSelector}
use emergency_ration_webhook.Controllers.NodeFilter.{ExclusionBreakdown, selected, is_node_counted}
use emergency_ration_webhook.Controllers.Supply.{
  Tally, empty_tally, bump, is_unschedulable, add_node, sum_nodes, effective_selectors,
  sum_node_allocatable,
}

-- How many elements pass the test.
abbrev pub count : {A : Type 0} → (A → Bool) → List A → ℕ
count p [] = 0
count p (x ∷ xs) = (if p x then 1 else 0) + count p xs

-- The nodes that are counted, those that are left out as unschedulable, and those that a selector
-- leaves out.
abbrev pub is_included : List LabelSelector → Node → Bool
is_included sels node =
    is_node_counted (is_unschedulable node) node.labels (some sels) && is_some node.allocatable

abbrev pub is_left_out : List LabelSelector → Node → Bool
is_left_out sels node =
    not (is_unschedulable node)
    && not (is_node_counted (is_unschedulable node) node.labels (some sels))

abbrev pub IsTallied : ℕ → ℕ → ℕ → ExclusionBreakdown → Type 0
IsTallied c u s b =
    (b.counted ≡ pos c) × (b.excluded_unschedulable ≡ pos u) × (b.excluded_by_selector ≡ pos s)

plus_one : (n : ℕ) → pos n +ℤ pos 1 ≡ pos (suc n)
unfolding ◌+ℤ◌
plus_one n = ground arith

bump-pos : (n : ℕ) → suc n ≤ 2147483647 → bump (pos n) ≡ pos (suc n)
bump-pos n h = rw (plus_one n) (wrap32-eq (pos (suc n)) (ground arith))

-- The number that a test adds.
abbrev pub as_count : Bool → ℕ
as_count b = if b then 1 else 0

bump-count :
    (z : ℤ) (n : ℕ) (b : Bool)
    → suc n ≤ 2147483647
    → z ≡ pos n
    → (if b then bump z else z) ≡ pos (n + as_count b)
bump-count z n true h e = ground (arith, bump-pos n)
bump-count z n false h e = ground arith

unschedulable-left_out :
    (labels : Option (Dict String)) (selectors : Option (List LabelSelector))
    → is_node_counted true labels selectors ≡ false
unfolding is_node_counted
unschedulable-left_out labels selectors = refl

right_zero : (a : ℕ) → a + 0 ≡ a
right_zero a = omega arith

left_zero : (a : ℕ) → 0 + a ≡ a
left_zero a = omega arith

sum_assoc : (a b c : ℕ) → a + b + c ≡ a + (b + c)
sum_assoc a b c = omega arith

-- A node counts towards one figure at most.
at_most_one :
    (sels : List LabelSelector) (node : Node)
    → as_count (is_included sels node)
        + as_count (is_unschedulable node)
        + as_count (is_left_out sels node)
      ≤ 1
at_most_one sels node = elim (Bool-cases (is_unschedulable node)) [
  | inl un ↦ simp (un, unschedulable-left_out node.labels (some sels)) (ground arith)
  | inr on ↦ elim (Bool-cases (is_node_counted false node.labels (some sels))) [
    | inl yes_counted ↦ simp (on, yes_counted) (ground arith)
    | inr out ↦ simp (on, out) (ground arith)
  ]
]

module _ (fl : Float) where
  add_node-IsTallied :
      (sels : List LabelSelector) (node : Node) (t : Tally) (c u s : ℕ)
      → suc (c + u + s) ≤ 2147483647
      → IsTallied c u s t.breakdown
      → IsTallied
          (c + as_count (is_included sels node))
          (u + as_count (is_unschedulable node))
          (s + as_count (is_left_out sels node))
          (add_node fl sels node t).breakdown
  unfolding add_node is_node_counted
  add_node-IsTallied sels node t c u s h (e, f, g) =
      let be = bump-pos c (omega arith) in
      let bf = bump-pos u (omega arith) in
      let bg = bump-pos s (omega arith) in
      elim (Bool-cases (is_unschedulable node)) [
        | inl un ↦ simp un (ground arith)
        | inr on ↦ elim (Bool-cases (selected node.labels (some sels))) [
          | inl yes_counted ↦ elim (Option-cases node.allocatable) [
            | inl empty ↦ simp (on, yes_counted, empty) (ground arith)
            | inr (a, full) ↦ simp (on, yes_counted, full) (ground arith)
          ]
          | inr out ↦ simp (on, out) (ground arith)
        ]
      ]

  sum_nodes-IsTallied :
      (sels : List LabelSelector) (nodes : List Node) (t : Tally) (c u s : ℕ)
      → c + u + s + length nodes ≤ 2147483647
      → IsTallied c u s t.breakdown
      → IsTallied
          (c + count (is_included sels) nodes)
          (u + count is_unschedulable nodes)
          (s + count (is_left_out sels) nodes)
          (sum_nodes fl sels nodes t).breakdown
  unfolding sum_nodes
  sum_nodes-IsTallied sels [] t c u s h e = simp (right_zero c, right_zero u, right_zero s) e
  sum_nodes-IsTallied sels (node ∷ nodes) t c u s h e =
      let step = add_node-IsTallied sels node t c u s (omega arith) e in
      simp
        (
          sum_assoc c (as_count (is_included sels node)) (count (is_included sels) nodes),
          sum_assoc u (as_count (is_unschedulable node)) (count is_unschedulable nodes),
          sum_assoc s (as_count (is_left_out sels node)) (count (is_left_out sels) nodes),
        )
        at
        (sum_nodes-IsTallied sels nodes (add_node fl sels node t)
          (c + as_count (is_included sels node)) (u + as_count (is_unschedulable node))
          (s + as_count (is_left_out sels node)) (omega (arith, at_most_one sels node)) step)

  -- On a cluster of at most 2^31 - 1 nodes, the three counts of the breakdown are exact: the nodes
  -- that are counted and publish their allocatable resources, the unschedulable nodes, and the
  -- schedulable nodes that a valid selector leaves out.
  pub sum_node_allocatable-IsTallied :
      (nodes : List Node) (selectors : Option (List LabelSelector))
      → length nodes ≤ 2147483647
      → let sels = effective_selectors selectors in
        IsTallied
          (count (is_included sels) nodes)
          (count is_unschedulable nodes)
          (count (is_left_out sels) nodes)
          (sum_node_allocatable fl nodes selectors).breakdown
  unfolding sum_node_allocatable
  sum_node_allocatable-IsTallied nodes selectors h =
      let sels = effective_selectors selectors in
      simp
        (
          left_zero (count (is_included sels) nodes),
          left_zero (count is_unschedulable nodes),
          left_zero (count (is_left_out sels) nodes),
        )
        at (sum_nodes-IsTallied sels nodes empty_tally 0 0 0 (omega arith) (refl, refl, refl))
