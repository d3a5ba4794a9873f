-- ===== src/Verify/Manifests/Puts.antt =====
-- What a change at one place of a JSON value does, and the assignment at a key.
use emergency_ration_webhook.Common.{
  Option, none, some, List, [], ◌∷◌, ◌++◌, Bool, true, false, Bool-cases, inl, inr, ◌≡◌, refl,
}
use emergency_ration_webhook.Common.Text.{Text, same}
use emergency_ration_webhook.Common.Text.Equality.{same-eq, same_refl}
use emergency_ration_webhook.Verify.Manifests.{
  Value, null, boolean, number, string, array, object, end, field, find_field, set_field, assign,
}
use emergency_ration_webhook.Verify.Manifests.Fields.{set_field-find, set_field-other}
use emergency_ration_webhook.Verify.Manifests.Paths.{Turn, key, index, at, apart}

-- What can be indexed by a key to assign to it.
abbrev pub is_keyed : Value → Bool
is_keyed (object ms) = true
is_keyed null = true
is_keyed (boolean b) = false
is_keyed (number n) = false
is_keyed (string s) = false
is_keyed (array vs) = false

abbrev pub Keyed : List Turn → Value → Type 0
Keyed path v = (c : Value) → at path v ≡ some c → is_keyed c ≡ true

-- What a change does that puts `x` at a key below a path: it returns if what stands at the path can be
-- indexed by a key; what stands at a path apart from that place stays, `x` stands there if the path was
-- there, and nothing changes if it was not.
pub record Puts (path : List Turn) (k : Text) (x : Value) (change : Value → Option Value)
    : Type 0 where
  pub stays :
      (v v' : Value) (p : List Turn)
      → change v ≡ some v'
      → apart p (path ++ key k ∷ []) ≡ true
      → at p v' ≡ at p v
  pub put :
      (v v' c : Value)
      → change v ≡ some v'
      → at path v ≡ some c
      → at (path ++ key k ∷ []) v' ≡ some x
  pub absent : (v : Value) → at path v ≡ none → change v ≡ some v
  pub returns : (v : Value) → Keyed path v → (v' : Value) × (change v ≡ some v')

-- A turn that is apart from a key, at an object.
apart-end : (p : List Turn) → apart p [] ≡ false
unfolding apart
apart-end [] = refl
apart-end (t ∷ p) = refl

pub apart-start : (q : List Turn) → apart [] q ≡ false
unfolding apart
apart-start q = refl

apart-key : (j k : Text) (p : List Turn) → apart (key j ∷ p) (key k ∷ []) ≡ true → same k j ≡ false
unfolding apart
apart-key j k p h = elim (Bool-cases (same k j)) [
  | inl one ↦ let e : k ≡ j = same-eq k j one in cc (rw (e, same_refl j, apart-end p) at h)
  | inr other ↦ other
]

assign-stays :
    (k : Text) (x v v' : Value) (p : List Turn)
    → assign k x v ≡ some v'
    → apart p (key k ∷ []) ≡ true
    → at p v' ≡ at p v
unfolding assign at find_field
assign-stays k x v v' [] h a = cc (apart-start (key k ∷ []))
assign-stays k x (object ms) v' (key j ∷ p) h a =
    let e : object (set_field k x ms) ≡ v' = cc in
    rw (← e, set_field-other k j x ms (apart-key j k p a)) refl
assign-stays k x null v' (key j ∷ p) h a =
    let e : object (field k x end) ≡ v' = cc in rw (← e, apart-key j k p a) refl
assign-stays k x (object ms) v' (index n ∷ p) h a =
    let e : object (set_field k x ms) ≡ v' = cc in rw (← e) refl
assign-stays k x null v' (index n ∷ p) h a =
    let e : object (field k x end) ≡ v' = cc in rw (← e) refl
assign-stays k x (boolean b) v' (t ∷ p) h a = cc
assign-stays k x (number n) v' (t ∷ p) h a = cc
assign-stays k x (string s) v' (t ∷ p) h a = cc
assign-stays k x (array vs) v' (t ∷ p) h a = cc

assign-put : (k : Text) (x v v' : Value) → assign k x v ≡ some v' → at (key k ∷ []) v' ≡ some x
unfolding assign at find_field
assign-put k x (object ms) v' h =
    let e : object (set_field k x ms) ≡ v' = cc in rw (← e, set_field-find k x ms) refl
assign-put k x null v' h = let e : object (field k x end) ≡ v' = cc in rw (← e, same_refl k) refl
assign-put k x (boolean b) v' h = cc
assign-put k x (number n) v' h = cc
assign-put k x (string s) v' h = cc
assign-put k x (array vs) v' h = cc

assign-returns :
    (k : Text) (x v : Value) → is_keyed v ≡ true → (v' : Value) × (assign k x v ≡ some v')
unfolding assign
assign-returns k x (object ms) h = (_, refl)
assign-returns k x null h = (_, refl)
assign-returns k x (boolean b) h = cc
assign-returns k x (number n) h = cc
assign-returns k x (string s) h = cc
assign-returns k x (array vs) h = cc

pub assign-Puts : (k : Text) (x : Value) → Puts [] k x (assign k x)
unfolding at
assign-Puts k x = record {
  stays = assign-stays k x;
  put = λ v v' c h i. assign-put k x v v' h;
  absent = λ v h. cc;
  returns = λ v h. assign-returns k x v (h v refl);
}
