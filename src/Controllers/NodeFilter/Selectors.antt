-- ===== src/Controllers/NodeFilter/Selectors.antt =====
-- The selectors of controllers/node_filter.rs against the semantics of Kubernetes.
use text.Mathlib.TextEquality.{eq_iff}
use emergency_ration_webhook.Common.{
  String, Option, none, some, List, [], ◌∷◌, Bool, true, false, any, not, ◌≡◌, ◌↔◌, ◌⊎◌, inl, inr,
  ◌==ˢ◌, arith, refl, if◌then◌else◌,
}
use emergency_ration_webhook.Common.Result.{is_some}
use emergency_ration_webhook.K8s.{Dict, get, LabelRequirement}
use emergency_ration_webhook.Crd.Allocation.Exemption.{Occurs, Listed}
use emergency_ration_webhook.Controllers.NodeFilter.{
  is_in, not_in, requirement_holds, requirement_matches,
}

-- The node has a value at the key, and it is listed.
abbrev pub IsOneOf : Option (List String) → Option String → Type 0
IsOneOf values none = ⊥
IsOneOf values (some v) = Listed values v

abbrev pub IsPresent : Option String → Type 0
IsPresent none = ⊥
IsPresent (some v) = Unit {0}

-- What a requirement asks of the node's value at its key.
abbrev pub Satisfies : LabelRequirement → Option String → Type 0
Satisfies req value =
    ((req.operator ≡ "In") × IsOneOf req.values value)
    ⊎ ((req.operator ≡ "NotIn") × ¬ IsOneOf req.values value)
    ⊎ ((req.operator ≡ "Exists") × IsPresent value)
    ⊎ ((req.operator ≡ "DoesNotExist") × ¬ IsPresent value)

any-Occurs : (v : String) (xs : List String) → (any (λ x. x ==ˢ v) xs ≡ true) ↔ Occurs v xs
any-Occurs v [] = ground arith
any-Occurs v (x ∷ xs) = ground (arith, eq_iff x v, any-Occurs v xs)

any-sym : (v : String) (xs : List String) → (any (λ x. v ==ˢ x) xs ≡ true) ↔ Occurs v xs
any-sym v [] = ground arith
any-sym v (x ∷ xs) = ground (arith, eq_iff v x, eq_iff x v, any-sym v xs)

any-false : (xs : List String) → any (λ x. false) xs ≡ false
any-false [] = refl
any-false (x ∷ xs) = any-false xs

is_in_iff :
    (value : Option String) (values : Option (List String))
    → (is_in value values ≡ true) ↔ IsOneOf values value
is_in_iff none values = ground arith
is_in_iff (some v) none = ground arith
is_in_iff (some v) (some vs) = any-Occurs v vs

not_in_iff :
    (value : Option String) (values : Option (List String))
    → (not_in value values ≡ true) ↔ ¬ IsOneOf values value
not_in_iff none none = ground arith
not_in_iff none (some vs) = ground (arith, any-false vs)
not_in_iff (some v) none = ground arith
not_in_iff (some v) (some vs) = ground (arith, any-sym v vs)

is_some_iff :
    (value : Option String)
    → ((is_some value ≡ true) ↔ IsPresent value)
      × ((not (is_some value) ≡ true) ↔ ¬ IsPresent value)
is_some_iff none = ground arith
is_some_iff (some v) = ground arith

-- The chain of tests on the operator, at given answers of the four operators.
abbrev by_operator : String → Bool → Bool → Bool → Bool → Bool
by_operator op a b c d =
    if op ==ˢ "In"
    then a
    else if op ==ˢ "NotIn"
    then b
    else if op ==ˢ "Exists"
    then c
    else if op ==ˢ "DoesNotExist"
    then d
    else false

by_operator_iff :
    (op : String) (a b c d : Bool)
    → (by_operator op a b c d ≡ true) ↔ (
        ((op ≡ "In") × (a ≡ true))
        ⊎ ((op ≡ "NotIn") × (b ≡ true))
        ⊎ ((op ≡ "Exists") × (c ≡ true))
        ⊎ ((op ≡ "DoesNotExist") × (d ≡ true)))
by_operator_iff op a b c d = (
  (λ h.
      ground
        (arith, eq_iff op "In", eq_iff op "NotIn", eq_iff op "Exists", eq_iff op "DoesNotExist")),
  λ h. elim h [
    | inl (e, p) ↦ rw e p
    | inr (inl (e, p)) ↦ rw e p
    | inr (inr (inl (e, p))) ↦ rw e p
    | inr (inr (inr (e, p))) ↦ rw e p
  ],
)

-- A requirement of `matchExpressions` holds of a node exactly when the node's value at its key
-- satisfies it in the sense of Kubernetes: In and NotIn by the listed values, an absent key
-- satisfying NotIn, Exists and DoesNotExist by the key alone; under any other operator it fails.
pub requirement_matches_iff :
    (labels : Dict String) (req : LabelRequirement)
    → (requirement_matches labels req ≡ true) ↔ Satisfies req (get req.key labels)
unfolding requirement_matches requirement_holds
requirement_matches_iff labels req =
    let value = get req.key labels in
    ground (
      arith,
      by_operator_iff req.operator (is_in value req.values) (not_in value req.values)
          (is_some value) (not (is_some value)),
      is_in_iff value req.values,
      not_in_iff value req.values,
      is_some_iff value,
    )
