-- ===== src/Verify/Manifests/Paths.antt =====
-- Reading a JSON value along a path, and two paths of which neither begins the other.
use emergency_ration_webhook.Common.{
  ℕ, zero, suc, ◌==◌, Option, none, some, List, [], ◌∷◌, Bool, true, false, if◌then◌else◌,
}
use emergency_ration_webhook.Common.Result.{and_then}
use emergency_ration_webhook.Common.Text.{codes, Text, same}
use emergency_ration_webhook.Verify.Manifests.{
  Value, null, boolean, number, string, array, object, Values, nil, cons, find_field, member,
}

pub data Turn : Type 0 where
  key : Text → Turn
  index : ℕ → Turn

abbrev pub element : ℕ → Values → Option Value
element n nil = none
element zero (cons v vs) = some v
element (suc n) (cons v vs) = element n vs

-- `Value::get` at a key or at an index.
abbrev pub follow : Turn → Value → Option Value
follow (key k) v = member k v
follow (index n) (array vs) = element n vs
follow (index n) null = none
follow (index n) (boolean b) = none
follow (index n) (number m) = none
follow (index n) (string s) = none
follow (index n) (object ms) = none

unfoldable pub at : List Turn → Value → Option Value
unfolding find_field
at [] v = some v
at (t ∷ p) v = and_then (follow t v) (at p)

abbrev pub same_turn : Turn → Turn → Bool
same_turn (key j) (key k) = same j k
same_turn (index m) (index n) = m == n
same_turn (key j) (index n) = false
same_turn (index m) (key k) = false

-- Neither path begins the other.
unfoldable pub apart : List Turn → List Turn → Bool
apart [] q = false
apart (t ∷ p) [] = false
apart (t ∷ p) (u ∷ q) = let rest = apart p q in if same_turn t u then rest else true

-- The first container of a Deployment.
abbrev pub first_container : List Turn
first_container =
    key (codes "spec")
    ∷ key (codes "template")
    ∷ key (codes "spec")
    ∷ key (codes "containers")
    ∷ index 0
    ∷ []
