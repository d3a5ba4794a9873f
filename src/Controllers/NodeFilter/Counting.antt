-- ===== src/Controllers/NodeFilter/Counting.antt =====
-- Which nodes controllers/node_filter.rs counts, against the selectors' semantics.
use text.Mathlib.TextEquality.{eq_iff}
use emergency_ration_webhook.Common.Lists.{AnyOf}
use emergency_ration_webhook.Common.{
  String, Option, none, some, List, [], ◌∷◌, Bool, true, false, any, all, not, All, ◌≡◌, ◌↔◌, ◌&&◌,
  ◌==ˢ◌, arith,
}
use emergency_ration_webhook.Common.Result.{is_some_and}
use emergency_ration_webhook.K8s.{Dict, get, LabelSelector}
use emergency_ration_webhook.Controllers.NodeFilter.{
  all_of, labels_match_selector, selector_is_empty, labels_match_any_selector, layer_two,
  is_node_counted,
}
use emergency_ration_webhook.Controllers.NodeFilter.Selectors.{Satisfies, requirement_matches_iff}

-- Every element of an optional list.
abbrev pub AllOf : {A : Type 0} → (A → Type 0) → Option (List A) → Type 0
AllOf P none = Unit
AllOf P (some xs) = All P xs

-- The labels match a selector: each of its labels is there with its value, and each of its
-- requirements is satisfied.
abbrev pub Matches : Dict String → LabelSelector → Type 0
Matches labels sel =
    AllOf (λ entry. get entry.0 labels ≡ some entry.1) sel.match_labels
    × AllOf (λ req. Satisfies req (get req.key labels)) sel.match_expressions

-- A selector that is not the empty one, and that the labels match.
abbrev pub Excludes : Dict String → LabelSelector → Type 0
Excludes labels sel = (selector_is_empty sel ≡ false) × Matches labels sel

module _ {A : Type 0} (p : A → Bool) (P : A → Type 0) (h : (x : A) → (p x ≡ true) ↔ P x) where
  all_iff : (xs : List A) → (all p xs ≡ true) ↔ All P xs
  all_iff [] = ground arith
  all_iff (x ∷ xs) = ground (arith, h x, all_iff xs)

  all_of_iff : (xs : Option (List A)) → (all_of xs p ≡ true) ↔ AllOf P xs
  all_of_iff none = ground arith
  all_of_iff (some xs) = all_iff xs

  any_iff : (xs : List A) → (any p xs ≡ true) ↔ AnyOf P xs
  any_iff [] = ground arith
  any_iff (x ∷ xs) = ground (arith, h x, any_iff xs)

is_value_iff :
    (o : Option String) (v : String) → (is_some_and o (λ x. x ==ˢ v) ≡ true) ↔ (o ≡ some v)
is_value_iff none v = ground arith
is_value_iff (some x) v = ground (arith, eq_iff x v)

and_iff :
    {P Q : Type 0} (a b : Bool) → (a ≡ true) ↔ P → (b ≡ true) ↔ Q → ((a && b) ≡ true) ↔ (P × Q)
and_iff a b h k = ground arith

labels_match_selector_iff :
    (labels : Dict String) (sel : LabelSelector)
    → (labels_match_selector labels sel ≡ true) ↔ Matches labels sel
unfolding labels_match_selector
labels_match_selector_iff labels sel =
    and_iff _ _
      (all_of_iff _ _ (λ entry. is_value_iff (get entry.0 labels) entry.1) sel.match_labels)
      (all_of_iff _ _ (requirement_matches_iff labels) sel.match_expressions)

Excludes-iff :
    (labels : Dict String) (sel : LabelSelector)
    → ((not (selector_is_empty sel) && labels_match_selector labels sel) ≡ true)
      ↔ Excludes labels sel
Excludes-iff labels sel = ground (arith, labels_match_selector_iff labels sel)

any_selector_iff :
    (labels : Dict String) (sels : List LabelSelector)
    → (labels_match_any_selector labels sels ≡ true) ↔ AnyOf (Excludes labels) sels
unfolding labels_match_any_selector
any_selector_iff labels sels = any_iff _ _ (Excludes-iff labels) sels

layer_two_iff :
    (labels : Dict String) (sels : List LabelSelector)
    → (layer_two (some labels) sels ≡ true) ↔ ¬ AnyOf (Excludes labels) sels
layer_two_iff labels [] = ground arith
layer_two_iff labels (sel ∷ sels) = ground (arith, any_selector_iff labels (sel ∷ sels))

-- A node with labels counts toward the capacity exactly when it is schedulable and no selector of
-- the list, other than an empty one, matches its labels.
pub is_node_counted_iff :
    (unschedulable : Bool) (labels : Dict String) (sels : List LabelSelector)
    → (is_node_counted unschedulable (some labels) (some sels) ≡ true)
      ↔ ((unschedulable ≡ false) × ¬ AnyOf (Excludes labels) sels)
unfolding is_node_counted
is_node_counted_iff unschedulable labels sels = ground (arith, layer_two_iff labels sels)

-- A selector that is not empty and that the empty label set matches, such as one that asks for a
-- key to be absent, excludes a schedulable node with an empty label map, but not the same node
-- with no label map.
pub is_node_counted-unlabelled :
    (sel : LabelSelector)
    → Excludes [] sel
    → (is_node_counted false (some []) (some (sel ∷ [])) ≡ false)
      × (is_node_counted false none (some (sel ∷ [])) ≡ true)
unfolding is_node_counted
is_node_counted-unlabelled sel h = ground (arith, layer_two_iff [] (sel ∷ []))
