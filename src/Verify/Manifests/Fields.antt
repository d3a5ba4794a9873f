-- ===== src/Verify/Manifests/Fields.antt =====
-- The fields of a JSON object under a change of one of them.
use mathlib.Core.Option
use emergency_ration_webhook.Common.{Option, none, some, false, Bool-cases, inl, inr, ◌≡◌, refl}
use emergency_ration_webhook.Common.Text.{Text, same}
use emergency_ration_webhook.Common.Text.Equality.{same-eq, same_refl}
use emergency_ration_webhook.Verify.Manifests.{
  Value, Members, end, field, find_field, at_field, set_field,
}

pub map-eq-some :
    {A B : Type 0} (g : A → B) (o : Option A) {b : B}
    → Option.map g o ≡ some b
    → (a : A) × (o ≡ some a) × (g a ≡ b)
map-eq-some g none h = cc
map-eq-some g (some a) h = (a, refl, cc)

pub set_field-find :
    (k : Text) (x : Value) (ms : Members) → find_field k (set_field k x ms) ≡ some x
unfolding find_field set_field
set_field-find k x end = rw (same_refl k) refl
set_field-find k x (field n v ms) = elim (Bool-cases (same n k)) [
  | inl here ↦ rw (here, here) refl
  | inr there ↦ rw (there, there) (set_field-find k x ms)
]

pub set_field-other :
    (k j : Text) (x : Value) (ms : Members)
    → same k j ≡ false
    → find_field j (set_field k x ms) ≡ find_field j ms
unfolding find_field set_field
set_field-other k j x end h = rw h refl
set_field-other k j x (field n v ms) h = elim (Bool-cases (same n k)) [
  | inl here ↦
      let other : same n j ≡ false = let e : n ≡ k = same-eq n k here in rw e h in
      rw (here, other) refl
  | inr there ↦ elim (Bool-cases (same n j)) [
    | inl found ↦ rw (there, found) refl
    | inr not_found ↦ rw (there, not_found) (set_field-other k j x ms h)
  ]
]

-- The field that a change reaches.
pub at_field-other :
    (j i : Text) (change : Value → Option Value) (ms : Members) {ms' : Members}
    → at_field j change ms ≡ some ms'
    → same j i ≡ false
    → find_field i ms' ≡ find_field i ms
unfolding at_field find_field
at_field-other j i change end {ms' = ms'} h a = let e : end ≡ ms' = cc in rw (← e) refl
at_field-other j i change (field n v ms) h a = elim (Bool-cases (same n j)) [
  | inl here ↦
      let (w, e, e') = map-eq-some (λ w. field n w ms) (change v) (rw here at h) in
      let one : n ≡ j = same-eq n j here in
      let other : same n i ≡ false = rw one a in rw (← e', other) refl
  | inr there ↦
      let (ms'', e, e') = map-eq-some (field n v) (at_field j change ms) (rw there at h) in
      rw (← e', at_field-other j i change ms e a) refl
]

pub at_field-found :
    (j : Text) (change : Value → Option Value) (ms : Members) {ms' : Members} {v : Value}
    → at_field j change ms ≡ some ms'
    → find_field j ms ≡ some v
    → (v' : Value) × (change v ≡ some v') × (find_field j ms' ≡ some v')
unfolding at_field find_field
at_field-found j change end h i = cc
at_field-found j change (field n u ms) {v = v} h i = elim (Bool-cases (same n j)) [
  | inl here ↦
      let (w, e, e') = map-eq-some (λ w. field n w ms) (change u) (rw here at h) in
      let one : u ≡ v = cc (rw here at i) in (w, rw (← one) e, rw (← e', here) refl)
  | inr there ↦
      let (ms'', e, e') = map-eq-some (field n u) (at_field j change ms) (rw there at h) in
      let (w, f, g) = at_field-found j change ms e (rw there at i) in (w, f, rw (← e', there) g)
]

pub at_field-missing :
    (j : Text) (change : Value → Option Value) (ms : Members)
    → find_field j ms ≡ none
    → at_field j change ms ≡ some ms
unfolding at_field find_field
at_field-missing j change end i = refl
at_field-missing j change (field n u ms) i = elim (Bool-cases (same n j)) [
  | inl here ↦ cc (rw here at i)
  | inr there ↦ rw (there, at_field-missing j change ms (rw there at i)) refl
]

pub at_field-kept :
    (j : Text) (change : Value → Option Value) (ms : Members) {v : Value}
    → find_field j ms ≡ some v
    → change v ≡ some v
    → at_field j change ms ≡ some ms
unfolding at_field find_field
at_field-kept j change end i c = cc
at_field-kept j change (field n u ms) {v = v} i c = elim (Bool-cases (same n j)) [
  | inl here ↦
      let one : u ≡ v = cc (rw here at i) in
      let kept : change u ≡ some u = rw one c in rw (here, kept) refl
  | inr there ↦ rw (there, at_field-kept j change ms (rw there at i) c) refl
]

pub at_field-returns :
    (j : Text) (change : Value → Option Value) (ms : Members)
    → ((v : Value) → find_field j ms ≡ some v → (v' : Value) × (change v ≡ some v'))
    → (ms' : Members) × (at_field j change ms ≡ some ms')
unfolding at_field find_field
at_field-returns j change end f = (end, refl)
at_field-returns j change (field n u ms) f = elim (Bool-cases (same n j)) [
  | inl here ↦ let (w, e) = f u (rw here refl) in (field n w ms, rw (here, e) refl)
  | inr there ↦
      let (ms', e) = at_field-returns j change ms (λ v i. f v (rw there i)) in
      (field n u ms', rw (there, e) refl)
]
