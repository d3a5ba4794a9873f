-- ===== src/Tests/Installed.antt =====
-- Runs of the setup's manifests.
use emergency_ration_webhook.Common.{
  Option, none, some, List, [], ◌∷◌, ◌++◌, true, false, ◌≡◌, ◌≢◌, refl,
}
use emergency_ration_webhook.Common.Lists.{All}
use emergency_ration_webhook.Common.Result.{Result, ok, err}
use emergency_ration_webhook.Common.Task.{Meets}
use emergency_ration_webhook.Common.Text.{codes, Text}
use emergency_ration_webhook.Verify.Manifests.{
  Value, null, string, array, object, nil, cons, end, field, find_field, kind_is, api_version_is,
  at_field, at_member, set_field, assign, at_first, substitute_image, parse_docs, parse_gvk,
  rsplit_once,
}
use emergency_ration_webhook.Verify.Manifests.Paths.{Turn, key, at, apart, first_container}
use emergency_ration_webhook.Verify.Manifests.Puts.{Keyed}
use emergency_ration_webhook.Verify.Manifests.Substitution.{substitute_image-places}
use emergency_ration_webhook.Verify.Manifests.Trust.{
  Holds, bundle_path, create_tls_secret-encodes_twice,
}
use emergency_ration_webhook.Verify.Manifests.Install.{
  ca_bundle_patch, inject_ca_bundle, Site, namespaced, keep, find_doc, substitute_all, prepared,
  apply_all, apply_doc, apply_manifests, check_cluster_clean, create_tls_secret, ensure_namespace,
  resolve_api_resource,
}
use emergency_ration_webhook.Verify.Manifests.Order.{
  IsRecorded, Follows, plan, apply_manifests-Follows,
}

abbrev one : Text → Value → Value
one k v = object (field k v end)

abbrev document : Text → Text → Value → Value
document api_version kind spec = object (
    field (codes "apiVersion") (string api_version) (
      field (codes "kind") (string kind) (
        field (codes "metadata") (one (codes "name") (string (codes "webhook")))
          (field (codes "spec") spec end))))

abbrev containers : Text → Value
containers image = one (codes "template") (
    one (codes "spec")
      (one (codes "containers") (array (cons (one (codes "image") (string image)) nil))))

abbrev deployment : Text → Value
deployment image = document (codes "apps/v1") (codes "Deployment") (containers image)

abbrev namespace_doc : Value
namespace_doc = document (codes "v1") (codes "Namespace") null

abbrev issuer : Value
issuer = document (codes "cert-manager.io/v1") (codes "Issuer") null

deployment-Keyed : (image : Text) → Keyed first_container (deployment image)
unfolding at find_field
deployment-Keyed image c e =
    let same_c : one (codes "image") (string image) ≡ c = cc in rw (← same_c) refl

namespace-Keyed : Keyed first_container namespace_doc
unfolding at find_field
namespace-Keyed c e = cc

issuer-Keyed : Keyed first_container issuer
unfolding at find_field
issuer-Keyed c e = cc

-- The image of the container is replaced.
substitute_image_run :
    substitute_image (deployment (codes "old")) (codes "new") ≡ some (deployment (codes "new"))
unfolding substitute_image at_member at_field at_first assign set_field
substitute_image_run = refl

substitute_image-places_example :
    (doc' : Value) × (substitute_image (deployment (codes "old")) (codes "new") ≡ some doc')
    × ((c : Value)
        → at first_container (deployment (codes "old")) ≡ some c
        → at (first_container ++ key (codes "image") ∷ []) doc' ≡ some (string (codes "new")))
    × (at first_container (deployment (codes "old")) ≡ none → doc' ≡ deployment (codes "old"))
    × ((p : List Turn)
        → apart p (first_container ++ key (codes "image") ∷ []) ≡ true
        → at p doc' ≡ at p (deployment (codes "old")))
substitute_image-places_example =
    substitute_image-places (deployment (codes "old")) (codes "new")
      (deployment-Keyed (codes "old"))

-- A server that takes every document and lists what it took.
abbrev recorder : Site
recorder = record {
  World = List Value;
  ApiResource = Unit;
  from_gvk = λ kind. tt;
  list_default = λ w. (ok [], w);
  pinned_kind = λ kind w. (ok (tt, namespaced), w);
  apply = λ kind namespace name doc w. (ok tt, w ++ doc ∷ []);
  apply_namespace = λ name w. (ok tt, w);
  apply_secret = λ secret w. (ok tt, w);
  apply_webhook_config = λ name patch w. (ok tt, w ++ patch ∷ []);
  self_sign = λ names w. (ok (codes "cert", codes "key"), w);
  encode = λ t. t;
}

abbrev recorder-IsRecorded : IsRecorded recorder
recorder-IsRecorded = record {
  applied = λ w. w;
  apply-ok = λ kind namespace name doc w e. refl;
  apply-err = λ kind namespace name doc w x e. cc;
  pinned-keeps = λ kind w. refl;
}

abbrev manifests : List (Result Text Value)
manifests = ok issuer ∷ ok (deployment (codes "old")) ∷ ok null ∷ ok namespace_doc ∷ []

abbrev parsed : List Value
parsed = issuer ∷ deployment (codes "old") ∷ namespace_doc ∷ []

apply_manifests_run :
    apply_manifests recorder manifests (some (codes "new")) []
    ≡ some (ok tt, namespace_doc ∷ deployment (codes "new") ∷ [])
unfolding apply_manifests apply_all apply_doc parse_docs prepared substitute_all substitute_image
    at_member at_field at_first assign set_field keep find_doc kind_is api_version_is find_field
    resolve_api_resource parse_gvk rsplit_once
apply_manifests_run = refl

apply_manifests-Follows_example :
    (docs : List Value) × (prepared (some (codes "new")) parsed ≡ some docs)
    × All (λ doc. api_version_is doc (codes "cert-manager.io") ≡ false) (plan docs)
    × Meets
        (Follows recorder recorder-IsRecorded [] (plan docs))
        (apply_manifests recorder manifests (some (codes "new")) [])
unfolding parse_docs
apply_manifests-Follows_example =
    apply_manifests-Follows recorder recorder-IsRecorded manifests parsed (some (codes "new")) []
      refl (issuer-Keyed, (deployment-Keyed (codes "old"), (namespace-Keyed, tt)))

-- No pod is in the way, and the certificate is made.
check_cluster_clean_run : check_cluster_clean recorder [] ≡ some (ok tt, [])
unfolding check_cluster_clean
check_cluster_clean_run = refl

create_tls_secret_run : create_tls_secret recorder [] ≡ some (ok (codes "cert"), [])
unfolding create_tls_secret ensure_namespace
create_tls_secret_run = refl

-- A server that holds the text of the certificate and the patch, and a base64 that adds a letter.
abbrev keeper : Site
keeper = record {
  World = Option Text × Option Value;
  ApiResource = Unit;
  from_gvk = λ kind. tt;
  list_default = λ w. (ok [], w);
  pinned_kind = λ kind w. (err (codes "no discovery"), w);
  apply = λ found namespace name doc w. (ok tt, w);
  apply_namespace = λ name w. (ok tt, w);
  apply_secret = λ secret w. (ok tt, (some (98 ∷ (secret.tls_crt).bytes), w.1));
  apply_webhook_config = λ name patch w. (ok tt, (w.0, some patch));
  self_sign = λ names w. (ok (codes "cert", codes "key"), w);
  encode = λ t. 98 ∷ t;
}

abbrev unletter : Text → Option Text
unletter [] = none
unletter (c ∷ t) = some t

abbrev keeper-Holds : Holds keeper
keeper-Holds = record {
  tls_crt = λ w. w.0;
  patch = λ w. w.1;
  decode = unletter;
  decode-encode = λ t. refl;
  secret-ok = λ s w e. refl;
  patch-ok = λ name p w e. refl;
  patch-keeps = λ name p w. refl;
  pinned-keeps = λ kind w. refl;
  apply-keeps = λ found namespace name doc w h. refl;
}

abbrev twice : Option Text
twice = some (codes "bbcert")

abbrev bundle_patch : Option Value
bundle_patch = some (ca_bundle_patch (codes "bcert"))

create_tls_secret-encodes_twice_example :
    (held bundle : Text) × (p : Value) × (twice ≡ some held)
    × (bundle_patch ≡ some p)
    × (at bundle_path p ≡ some (string bundle))
    × (unletter bundle ≡ some (codes "cert"))
    × (unletter held ≡ some (codes "bcert"))
    × (unletter held ≢ unletter bundle)
unfolding apply_manifests apply_all apply_doc parse_docs prepared substitute_all substitute_image
    at_member at_field at_first assign set_field keep find_doc kind_is api_version_is find_field
    resolve_api_resource parse_gvk rsplit_once create_tls_secret ensure_namespace inject_ca_bundle
create_tls_secret-encodes_twice_example =
    create_tls_secret-encodes_twice keeper keeper-Holds manifests parsed (some (codes "new"))
      (codes "cert") (none, none) (twice, none) (twice, none) (twice, bundle_patch) refl
      (issuer-Keyed, (deployment-Keyed (codes "old"), (namespace-Keyed, tt)))
      (refl, (refl, (refl, tt))) (λ e. cc) refl refl refl
