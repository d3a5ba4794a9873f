-- ===== src/Verify/Manifests/Prepared.antt =====
-- The documents that bin/erw-verify/setup.rs applies: which it leaves out, and what the substitution of
-- the image keeps.
use emergency_ration_webhook.Common.{
  Option, none, some, List, [], ◌∷◌, Bool, false, not, ◌||◌, Bool-cases, Option-cases, inl, inr,
  ◌≡◌, ◌∙◌, refl, sym,
}
use emergency_ration_webhook.Common.Lists.{All}
use emergency_ration_webhook.Common.Result.{and_then, is_some_and}
use emergency_ration_webhook.Common.Text.{codes, Text, same, is_prefix}
use emergency_ration_webhook.Verify.Manifests.{
  Value, member, as_str, kind_is, api_version_is, substitute_image,
}
use emergency_ration_webhook.Verify.Manifests.Paths.{key, at, apart, first_container}
use emergency_ration_webhook.Verify.Manifests.Puts.{Keyed}
use emergency_ration_webhook.Verify.Manifests.Substitution.{substitute_image-places}
use emergency_ration_webhook.Verify.Manifests.Install.{keep, substitute_all, with_image, prepared}

-- A document that is not of cert-manager.
abbrev pub Ours : Value → Type 0
Ours doc = api_version_is doc (codes "cert-manager.io") ≡ false

at-key : (k : Text) (v : Value) → at (key k ∷ []) v ≡ member k v
unfolding at
at-key k v = elim (Option-cases (member k v)) [ inl e ↦ rw e refl | inr (x, e) ↦ rw e refl ]

-- The substitution leaves the API version and the kind as they are.
substituted-same :
    (doc : Value) (image : Text)
    → Keyed first_container doc
    → (doc' : Value) × (substitute_image doc image ≡ some doc')
      × (member (codes "apiVersion") doc' ≡ member (codes "apiVersion") doc)
      × (member (codes "kind") doc' ≡ member (codes "kind") doc)
unfolding apart
substituted-same doc image keyed =
    let (doc', h, _, _, frame) = substitute_image-places doc image keyed in
    (
      doc',
      h,
      sym (at-key _ doc') ∙ frame (key (codes "apiVersion") ∷ []) refl ∙ at-key _ doc,
      sym (at-key _ doc') ∙ frame (key (codes "kind") ∷ []) refl ∙ at-key _ doc,
    )

-- What is said of the API version and the kind of the documents stays true.
abbrev pub Header : (Option Value → Option Value → Type 0) → Value → Type 0
Header P doc = P (member (codes "apiVersion") doc) (member (codes "kind") doc)

substitute_all-Header :
    (P : Option Value → Option Value → Type 0) (image : Text) (docs : List Value)
    → All (Keyed first_container) docs
    → All (Header P) docs
    → (docs' : List Value) × (substitute_all image docs ≡ some docs') × All (Header P) docs'
unfolding substitute_all
substitute_all-Header P image [] keyed held = ([], refl, tt)
substitute_all-Header P image (doc ∷ docs) (k, ks) (o, os) =
    let (docs', e, rest) = substitute_all-Header P image docs ks os in
    elim (Bool-cases (kind_is doc (codes "Deployment"))) [
      | inl deployment ↦
          let (doc', f, version, kind) = substituted-same doc image k in
          (doc' ∷ docs', rw (deployment, f, e) refl, (rw (version, kind) o, rest))
      | inr other ↦ (doc ∷ docs', rw (other, e) refl, (o, rest))
    ]

pub keep-All :
    (P : Value → Type 0) (test : Value → Bool) (docs : List Value)
    → All P docs
    → All P (keep test docs)
unfolding keep
keep-All P test [] h = tt
keep-All P test (doc ∷ docs) (h, hs) = elim (Bool-cases (test doc)) [
  | inl kept ↦ rw kept (h, keep-All P test docs hs)
  | inr left_out ↦ rw left_out (keep-All P test docs hs)
]

keep-Ours :
    (docs : List Value)
    → All Ours (keep (λ doc. not (api_version_is doc (codes "cert-manager.io"))) docs)
unfolding keep
keep-Ours [] = tt
keep-Ours (doc ∷ docs) = elim (Bool-cases (api_version_is doc (codes "cert-manager.io"))) [
  | inl theirs ↦ rw theirs (keep-Ours docs)
  | inr ours ↦ rw ours (ours, keep-Ours docs)
]

-- The test of the API version.
abbrev is_cert_manager : Option Value → Bool
is_cert_manager version =
    is_some_and (and_then version as_str)
      (λ av. same av (codes "cert-manager.io") || is_prefix (codes "cert-manager.io/") av)

with_image-Header :
    (P : Option Value → Option Value → Type 0) (image : Option Text) (docs : List Value)
    → All (Keyed first_container) docs
    → All (Header P) docs
    → (docs' : List Value) × (with_image image docs ≡ some docs') × All (Header P) docs'
with_image-Header P none docs keyed held = (docs, refl, held)
with_image-Header P (some image) docs keyed held = substitute_all-Header P image docs keyed held

pub prepared-Ours :
    (image : Option Text) (docs : List Value)
    → All (Keyed first_container) docs
    → (docs' : List Value) × (prepared image docs ≡ some docs') × All Ours docs'
unfolding prepared api_version_is
prepared-Ours image docs keyed =
    with_image-Header (λ version kind. is_cert_manager version ≡ false) image _
      (keep-All (Keyed first_container) _ docs keyed) (keep-Ours docs)

pub prepared-Header :
    (P : Option Value → Option Value → Type 0) (image : Option Text) (docs : List Value)
    → All (Keyed first_container) docs
    → All (Header P) docs
    → (docs' : List Value) × (prepared image docs ≡ some docs') × All (Header P) docs'
unfolding prepared
prepared-Header P image docs keyed held =
    with_image-Header P image _ (keep-All (Keyed first_container) _ docs keyed)
      (keep-All (Header P) _ docs held)
