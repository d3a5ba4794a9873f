-- ===== src/Crd/Allocation/Exemption.antt =====
-- Which pods the exclusion policy of crd/allocation.rs exempts.
use text.Mathlib.TextEquality.{eq_iff}
use emergency_ration_webhook.Common.{
  String, Option, none, some, List, [], ◌∷◌, true, any, ◌≡◌, ◌≢◌, ◌↔◌, ◌⊎◌, ◌==ˢ◌, arith,
}
use emergency_ration_webhook.Crd.Allocation.{
  AllocationSpec, namespace, priority_class, webhook_namespace, list_contains, check_exemption,
}

-- A name occurs in a list.
abbrev pub Occurs : String → List String → Type 0
Occurs v [] = ⊥
Occurs v (x ∷ xs) = (x ≡ v) ⊎ Occurs v xs

-- A name occurs in an optional list.
abbrev pub Listed : Option (List String) → String → Type 0
Listed none v = ⊥
Listed (some xs) v = Occurs v xs

-- The pod's namespace is the webhook's own, or is excluded; its priority class is excluded.
abbrev pub InOwnNamespace : Option String → String → Type 0
InOwnNamespace ns own = ns ≡ some own

abbrev pub InExcludedNamespace : Option String → AllocationSpec → Type 0
InExcludedNamespace none spec = ⊥
InExcludedNamespace (some ns) spec = Listed spec.excluded_namespaces ns

abbrev pub HasExcludedClass : Option String → AllocationSpec → Type 0
HasExcludedClass none spec = ⊥
HasExcludedClass (some pc) spec = (pc ≢ "") × Listed spec.excluded_priority_classes pc

any-Occurs : (v : String) (xs : List String) → (any (λ x. x ==ˢ v) xs ≡ true) ↔ Occurs v xs
any-Occurs v [] = ground arith
any-Occurs v (x ∷ xs) = ground (arith, eq_iff x v, any-Occurs v xs)

list_contains-Listed :
    (l : Option (List String)) (v : String) → (list_contains l v ≡ true) ↔ Listed l v
unfolding list_contains
list_contains-Listed none v = ground arith
list_contains-Listed (some xs) v = any-Occurs v xs

-- The verdict on exemption by the three tests, first match first: the webhook's own namespace, an
-- excluded namespace, a non-empty excluded priority class; none of them gives no exemption.
pub check_exemption-exact :
    (ns pc : Option String) (spec : AllocationSpec) (own : String)
    → ((check_exemption ns pc spec own ≡ some webhook_namespace) ↔ InOwnNamespace ns own)
      × ((check_exemption ns pc spec own ≡ some namespace)
          ↔ (¬ InOwnNamespace ns own × InExcludedNamespace ns spec))
      × ((check_exemption ns pc spec own ≡ some priority_class)
          ↔ (¬ InOwnNamespace ns own × (¬ InExcludedNamespace ns spec) × HasExcludedClass pc spec))
      × ((check_exemption ns pc spec own ≡ none) ↔ (
          ¬ InOwnNamespace ns own × (¬ InExcludedNamespace ns spec) × (¬ HasExcludedClass pc spec)))
unfolding check_exemption
check_exemption-exact none none spec own = ground arith
check_exemption-exact none (some p) spec own =
    ground (arith, eq_iff p "", list_contains-Listed spec.excluded_priority_classes p)
check_exemption-exact (some n) none spec own =
    ground (arith, eq_iff n own, list_contains-Listed spec.excluded_namespaces n)
check_exemption-exact (some n) (some p) spec own = ground (
  arith,
  eq_iff n own,
  eq_iff p "",
  list_contains-Listed spec.excluded_namespaces n,
  list_contains-Listed spec.excluded_priority_classes p,
)
