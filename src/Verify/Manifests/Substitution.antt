-- ===== src/Verify/Manifests/Substitution.antt =====
-- The substitution of the image in a Deployment (bin/erw-verify/setup.rs) changes one place.
use emergency_ration_webhook.Common.{
  ℕ, zero, suc, Option, none, some, List, [], ◌∷◌, ◌++◌, true, Bool-cases, Option-cases, inl, inr,
  ◌≡◌, refl,
}
use emergency_ration_webhook.Common.Text.{codes, Text, same}
use emergency_ration_webhook.Common.Text.Equality.{same-eq, same_refl}
use emergency_ration_webhook.Verify.Manifests.{
  Value, null, boolean, number, string, array, object, nil, cons, Members, find_field, at_field,
  at_member, at_first, substitute_image,
}
use emergency_ration_webhook.Verify.Manifests.Fields.{
  map-eq-some, at_field-other, at_field-found, at_field-missing, at_field-kept, at_field-returns,
}
use emergency_ration_webhook.Verify.Manifests.Puts.{Keyed, Puts, apart-start, assign-Puts}
use emergency_ration_webhook.Verify.Manifests.Paths.{Turn, key, index, at, apart, first_container}

module _ {path : List Turn} {k : Text} {x : Value} (change : Value → Option Value)
    (puts : Puts path k x change) where
  at_first-stays :
      (v v' : Value) (p : List Turn)
      → at_first change v ≡ some v'
      → apart p (index 0 ∷ path ++ key k ∷ []) ≡ true
      → at p v' ≡ at p v
  unfolding at_first at find_field apart
  at_first-stays v v' [] h a = cc
  at_first-stays (array (cons w ws)) v' (index zero ∷ p) h a =
      let (w', e, e') = map-eq-some (λ u. array (cons u ws)) (change w) h in
      rw (← e') (puts.stays w w' p e a)
  at_first-stays (array (cons w ws)) v' (index (suc n) ∷ p) h a =
      let (w', e, e') = map-eq-some (λ u. array (cons u ws)) (change w) h in rw (← e') refl
  at_first-stays (array (cons w ws)) v' (key j ∷ p) h a =
      let (w', e, e') = map-eq-some (λ u. array (cons u ws)) (change w) h in rw (← e') refl
  at_first-stays (array nil) v' (t ∷ p) h a = let e : array nil ≡ v' = cc in rw (← e) refl
  at_first-stays null v' (t ∷ p) h a = let e : null ≡ v' = cc in rw (← e) refl
  at_first-stays (boolean b) v' (t ∷ p) h a = let e : boolean b ≡ v' = cc in rw (← e) refl
  at_first-stays (number n) v' (t ∷ p) h a = let e : number n ≡ v' = cc in rw (← e) refl
  at_first-stays (string s) v' (t ∷ p) h a = let e : string s ≡ v' = cc in rw (← e) refl
  at_first-stays (object ms) v' (t ∷ p) h a = let e : object ms ≡ v' = cc in rw (← e) refl

  at_first-put :
      (v v' c : Value)
      → at_first change v ≡ some v'
      → at (index 0 ∷ path) v ≡ some c
      → at (index 0 ∷ path ++ key k ∷ []) v' ≡ some x
  unfolding at_first at
  at_first-put (array (cons w ws)) v' c h i =
      let (w', e, e') = map-eq-some (λ u. array (cons u ws)) (change w) h in
      rw (← e') (puts.put w w' c e i)
  at_first-put (array nil) v' c h i = cc
  at_first-put null v' c h i = cc
  at_first-put (boolean b) v' c h i = cc
  at_first-put (number n) v' c h i = cc
  at_first-put (string s) v' c h i = cc
  at_first-put (object ms) v' c h i = cc

  at_first-absent : (v : Value) → at (index 0 ∷ path) v ≡ none → at_first change v ≡ some v
  unfolding at_first at
  at_first-absent (array (cons w ws)) h = rw (puts.absent w h) refl
  at_first-absent (array nil) h = refl
  at_first-absent null h = refl
  at_first-absent (boolean b) h = refl
  at_first-absent (number n) h = refl
  at_first-absent (string s) h = refl
  at_first-absent (object ms) h = refl

  at_first-returns :
      (v : Value) → Keyed (index 0 ∷ path) v → (v' : Value) × (at_first change v ≡ some v')
  unfolding at_first at
  at_first-returns (array (cons w ws)) h =
      let (w', e) = puts.returns w h in (array (cons w' ws), rw e refl)
  at_first-returns (array nil) h = (_, refl)
  at_first-returns null h = (_, refl)
  at_first-returns (boolean b) h = (_, refl)
  at_first-returns (number n) h = (_, refl)
  at_first-returns (string s) h = (_, refl)
  at_first-returns (object ms) h = (_, refl)

  at_first-Puts : Puts (index 0 ∷ path) k x (at_first change)
  at_first-Puts = record {
    stays = at_first-stays;
    put = at_first-put;
    absent = at_first-absent;
    returns = at_first-returns;
  }

unread :
    (ms' ms : Members) (n : ℕ) (p : List Turn)
    → at (index n ∷ p) (object ms') ≡ at (index n ∷ p) (object ms)
unfolding at
unread ms' ms n p = refl

module _ {path : List Turn} {k : Text} {x : Value} (j : Text) (change : Value → Option Value)
    (puts : Puts path k x change) where
  object-stays :
      (ms ms' : Members) (i : Text) (p : List Turn)
      → at_field j change ms ≡ some ms'
      → apart (key i ∷ p) (key j ∷ path ++ key k ∷ []) ≡ true
      → at (key i ∷ p) (object ms') ≡ at (key i ∷ p) (object ms)
  unfolding at apart
  object-stays ms ms' i p h a = elim (Bool-cases (same j i)) [
    | inr other ↦ rw (at_field-other j i change ms h other) refl
    | inl one ↦
        let e : j ≡ i = same-eq j i one in
        elim (Option-cases (find_field j ms)) [
          | inl missing ↦
              let same_ms : ms ≡ ms' = cc (h, at_field-missing j change ms missing) in
              rw (← same_ms) refl
          | inr (v, found) ↦
              let (v', f, g) = at_field-found j change ms h found in
              rw (← e, found, g) (puts.stays v v' p f (rw (← e, same_refl j) at a))
        ]
  ]

  at_member-stays :
      (v v' : Value) (p : List Turn)
      → at_member j change v ≡ some v'
      → apart p (key j ∷ path ++ key k ∷ []) ≡ true
      → at p v' ≡ at p v
  unfolding at_member
  at_member-stays v v' [] h a = cc (apart-start (key j ∷ path ++ key k ∷ []))
  at_member-stays (object ms) v' (key i ∷ p) h a =
      let (ms', e, e') = map-eq-some object (at_field j change ms) h in
      rw (← e') (object-stays ms ms' i p e a)
  at_member-stays (object ms) v' (index n ∷ p) h a =
      let (ms', e, e') = map-eq-some object (at_field j change ms) h in
      rw (← e') (unread ms' ms n p)
  at_member-stays null v' (t ∷ p) h a = let e : null ≡ v' = cc in rw (← e) refl
  at_member-stays (boolean b) v' (t ∷ p) h a = let e : boolean b ≡ v' = cc in rw (← e) refl
  at_member-stays (number n) v' (t ∷ p) h a = let e : number n ≡ v' = cc in rw (← e) refl
  at_member-stays (string s) v' (t ∷ p) h a = let e : string s ≡ v' = cc in rw (← e) refl
  at_member-stays (array vs) v' (t ∷ p) h a = let e : array vs ≡ v' = cc in rw (← e) refl

  at_member-put :
      (v v' c : Value)
      → at_member j change v ≡ some v'
      → at (key j ∷ path) v ≡ some c
      → at (key j ∷ path ++ key k ∷ []) v' ≡ some x
  unfolding at_member at
  at_member-put (object ms) v' c h i = elim (Option-cases (find_field j ms)) [
    | inl missing ↦ cc (rw missing at i)
    | inr (u, found) ↦
        let (ms', e, e') = map-eq-some object (at_field j change ms) h in
        let (u', f, g) = at_field-found j change ms e found in
        rw (← e', g) (puts.put u u' c f (rw found at i))
  ]
  at_member-put null v' c h i = cc
  at_member-put (boolean b) v' c h i = cc
  at_member-put (number n) v' c h i = cc
  at_member-put (string s) v' c h i = cc
  at_member-put (array vs) v' c h i = cc

  at_member-absent : (v : Value) → at (key j ∷ path) v ≡ none → at_member j change v ≡ some v
  unfolding at_member at
  at_member-absent (object ms) h = elim (Option-cases (find_field j ms)) [
    | inl missing ↦ rw (at_field-missing j change ms missing) refl
    | inr (u, found) ↦ rw (at_field-kept j change ms found (puts.absent u (rw found at h))) refl
  ]
  at_member-absent null h = refl
  at_member-absent (boolean b) h = refl
  at_member-absent (number n) h = refl
  at_member-absent (string s) h = refl
  at_member-absent (array vs) h = refl

  at_member-returns :
      (v : Value) → Keyed (key j ∷ path) v → (v' : Value) × (at_member j change v ≡ some v')
  unfolding at_member at
  at_member-returns (object ms) h =
      let (ms', e) =
        at_field-returns j change ms (λ v found. puts.returns v (λ c i. h c (rw found i))) in
      (object ms', rw e refl)
  at_member-returns null h = (_, refl)
  at_member-returns (boolean b) h = (_, refl)
  at_member-returns (number n) h = (_, refl)
  at_member-returns (string s) h = (_, refl)
  at_member-returns (array vs) h = (_, refl)

  at_member-Puts : Puts (key j ∷ path) k x (at_member j change)
  at_member-Puts = record {
    stays = at_member-stays;
    put = at_member-put;
    absent = at_member-absent;
    returns = at_member-returns;
  }

substitute_image-Puts :
    (image : Text)
    → Puts first_container (codes "image") (string image) (λ doc. substitute_image doc image)
unfolding substitute_image
substitute_image-Puts image = at_member-Puts _ _ (
    at_member-Puts _ _ (
      at_member-Puts _ _
        (at_member-Puts _ _ (at_first-Puts _ (assign-Puts (codes "image") (string image))))))

-- Where what stands at the first container, if there is one, is an object or null, the substitution
-- returns. A document that has the first container has the new image there afterwards, one that does
-- not is unchanged, and what stands at any path of which neither the path of the image nor it begins
-- the other stays as it was.
pub substitute_image-places :
    (doc : Value) (image : Text)
    → Keyed first_container doc
    → (doc' : Value) × (substitute_image doc image ≡ some doc')
      × ((c : Value)
          → at first_container doc ≡ some c
          → at (first_container ++ key (codes "image") ∷ []) doc' ≡ some (string image))
      × (at first_container doc ≡ none → doc' ≡ doc)
      × ((p : List Turn)
          → apart p (first_container ++ key (codes "image") ∷ []) ≡ true
          → at p doc' ≡ at p doc)
substitute_image-places doc image keyed =
    let puts = substitute_image-Puts image in
    let (doc', h) = puts.returns doc keyed in
    (
      doc',
      h,
      λ c i. puts.put doc doc' c h i,
      λ i. cc (h, puts.absent doc i),
      λ p a. puts.stays doc doc' p h a,
    )
