-- ===== src/Controllers/NodeFilter.antt =====
-- controllers/node_filter.rs: which nodes count toward the capacity.
pub mod Selectors
pub mod Counting
use emergency_ration_webhook.Common.{
  String, Option, none, some, List, [], ◌∷◌, Bool, true, false, ◌&&◌, not, any, all, is_empty,
  ◌==ˢ◌, if◌then◌else◌,
}
use emergency_ration_webhook.Common.Int.{ℤ, pos, ◌+ℤ◌}
use emergency_ration_webhook.Common.Word.{wrap32}
use emergency_ration_webhook.Common.Result.{Result, ok, err, ◌>>=◌, is_some_and, is_some}
use emergency_ration_webhook.K8s.{Dict, get, LabelRequirement, LabelSelector}

pub data SelectorError : Type 0 where
  unknown_operator : (operator key : String) → SelectorError
  missing_values : (operator key : String) → SelectorError
  unexpected_values : (operator key : String) → SelectorError

-- One round of the loop of `validate_selector`.
unfoldable pub validate_requirement : LabelRequirement → Result SelectorError (Unit {0})
validate_requirement req =
    let has_values = is_some_and req.values (λ values. not (is_empty values)) in
    let missing = missing_values req.operator req.key in
    let unexpected = unexpected_values req.operator req.key in
    if req.operator ==ˢ "In"
    then (if has_values then ok tt else err missing)
    else if req.operator ==ˢ "NotIn"
    then (if has_values then ok tt else err missing)
    else if req.operator ==ˢ "Exists"
    then (if has_values then err unexpected else ok tt)
    else if req.operator ==ˢ "DoesNotExist"
    then (if has_values then err unexpected else ok tt)
    else err (unknown_operator req.operator req.key)

unfoldable pub validate_requirements : List LabelRequirement → Result SelectorError (Unit {0})
unfolding validate_requirement
validate_requirements [] = ok tt
validate_requirements (req ∷ reqs) = do _ ← validate_requirement req; validate_requirements reqs

abbrev pub validate_expressions : Option (List LabelRequirement) → Result SelectorError (Unit {0})
validate_expressions none = ok tt
validate_expressions (some expressions) = validate_requirements expressions

abbrev pub validate_selector : LabelSelector → Result SelectorError (Unit {0})
validate_selector selector = validate_expressions selector.match_expressions

pub record ExclusionBreakdown : Type 0 where
  pub counted : ℤ
  pub excluded_unschedulable : ℤ
  pub excluded_by_selector : ℤ

unfoldable pub excluded_node_count : ExclusionBreakdown → ℤ
excluded_node_count b = wrap32 (b.excluded_unschedulable +ℤ b.excluded_by_selector)

-- `labels.get(key) == Some(value)`.
abbrev pub has_label : Dict String → String → String → Bool
has_label labels key value = is_some_and (get key labels) (λ v. v ==ˢ value)

-- The four operators, on the node's value and the listed values.
abbrev pub is_in : Option String → Option (List String) → Bool
is_in node_value values = is_some_and node_value (λ v. is_some_and values (any (λ x. x ==ˢ v)))

abbrev pub not_in : Option String → Option (List String) → Bool
not_in node_value none = true
not_in node_value (some values) = not (any (λ v. is_some_and node_value (λ n. n ==ˢ v)) values)

-- One requirement of `matchExpressions`, on the node's value at its key.
unfoldable pub requirement_holds : LabelRequirement → Option String → Bool
requirement_holds req node_value =
    if req.operator ==ˢ "In"
    then is_in node_value req.values
    else if req.operator ==ˢ "NotIn"
    then not_in node_value req.values
    else if req.operator ==ˢ "Exists"
    then is_some node_value
    else if req.operator ==ˢ "DoesNotExist"
    then not (is_some node_value)
    else false

unfoldable pub requirement_matches : Dict String → LabelRequirement → Bool
requirement_matches labels req = requirement_holds req (get req.key labels)

abbrev pub all_of : {A : Type 0} → Option (List A) → (A → Bool) → Bool
all_of none p = true
all_of (some xs) p = all p xs

unfoldable pub labels_match_selector : Dict String → LabelSelector → Bool
labels_match_selector labels selector =
    all_of selector.match_labels (λ entry. has_label labels entry.0 entry.1)
    && all_of selector.match_expressions (requirement_matches labels)

-- `is_none_or(is_empty)`.
abbrev pub absent_or_empty : {A : Type 0} → Option (List A) → Bool
absent_or_empty none = true
absent_or_empty (some xs) = is_empty xs

unfoldable pub selector_is_empty : LabelSelector → Bool
selector_is_empty selector =
    absent_or_empty selector.match_labels && absent_or_empty selector.match_expressions

unfoldable pub labels_match_any_selector : Dict String → List LabelSelector → Bool
labels_match_any_selector labels =
    any (λ sel. not (selector_is_empty sel) && labels_match_selector labels sel)

-- The node's labels against the list of selectors.
abbrev pub layer_two : Option (Dict String) → List LabelSelector → Bool
layer_two labels [] = true
layer_two none (sel ∷ sels) = true
layer_two (some node_labels) (sel ∷ sels) = not (labels_match_any_selector node_labels (sel ∷ sels))

abbrev pub selected : Option (Dict String) → Option (List LabelSelector) → Bool
selected labels none = true
selected labels (some sels) = layer_two labels sels

unfoldable pub is_node_counted : Bool → Option (Dict String) → Option (List LabelSelector) → Bool
is_node_counted unschedulable labels selectors =
    if unschedulable then false else selected labels selectors
