-- ===== src/Verify/Manifests/Install.antt =====
-- bin/erw-verify/setup.rs: the check that the cluster is clean, the manifests, the certificate and its
-- bundle. The API server, the making of the certificate and base64 are an interface.
use emergency_ration_webhook.Common.{
  Option, none, some, List, [], ◌∷◌, ◌++◌, Bool, not, map, length, if◌then◌else◌,
}
use emergency_ration_webhook.Common.Result.{Result, ok, err, is_some, and_then}
use emergency_ration_webhook.Common.Task.{Task, ◌>>=◌, pure, fail, call}
use emergency_ration_webhook.Common.Text.{codes, Text, show_ℕ}
use emergency_ration_webhook.Verify.Manifests.{
  Value, find_field, string, array, object, nil, cons, end, field, member, text_at, kind_is,
  api_version_is, GroupVersionKind, parse_gvk, substitute_image, parse_docs,
}

-- `Scope`.
pub data Scope : Type 0 where
  namespaced clustered : Scope

-- `NAMESPACE`, `TLS_SECRET_NAME`, `WEBHOOK_CONFIG_NAME` and `WEBHOOK_NAME`.
abbrev pub webhook_namespace : Text
webhook_namespace = codes "capacity-admission"

abbrev pub tls_secret_name : Text
tls_secret_name = codes "capacity-admission-webhook-tls"

abbrev pub webhook_config_name : Text
webhook_config_name = codes "capacity-admission.emergency-ration.dev"

abbrev pub webhook_name : Text
webhook_name = codes "capacity-admission.emergency-ration.dev"

abbrev pub service_dns_names : List Text
service_dns_names =
    codes "capacity-admission-webhook"
    ∷ codes "capacity-admission-webhook.capacity-admission"
    ∷ codes "capacity-admission-webhook.capacity-admission.svc"
    ∷ []

-- `ByteString` of k8s-openapi: bytes in memory, which a request carries in base64.
pub record ByteString : Type 0 where
  pub bytes : Text

-- The fields of a `Secret` that the setup writes.
pub record Secret : Type 0 where
  pub name : Text
  pub namespace : Text
  pub tls_crt : ByteString
  pub tls_key : ByteString
  pub type_ : Text

pub record Site : Type 1 where
  pub World : Type 0
  pub ApiResource : Type 0
  pub from_gvk : GroupVersionKind → ApiResource
  -- The names of the pods of the namespace `default`.
  pub list_default : World → Result Text (List (Option Text)) × World
  pub pinned_kind : GroupVersionKind → World → Result Text (ApiResource × Scope) × World
  -- Server-side apply at a kind, in a namespace or none, under a name.
  pub apply : ApiResource → Option Text → Text → Value → World → Result Text Unit × World
  pub apply_namespace : Text → World → Result Text Unit × World
  pub apply_secret : Secret → World → Result Text Unit × World
  pub apply_webhook_config : Text → Value → World → Result Text Unit × World
  -- The certificate and its key for these names.
  pub self_sign : List Text → World → Result Text (Text × Text) × World
  -- Base64, of the engine that the setup calls.
  pub encode : Text → Text

-- `unwrap_or` at a text.
abbrev name_or : Text → Option Text → Text
name_or other none = other
name_or other (some name) = name

abbrev join_with : Text → List Text → Text
join_with sep [] = []
join_with sep (t ∷ []) = t
join_with sep (t ∷ u ∷ ts) = t ++ (sep ++ join_with sep (u ∷ ts))

-- `Iterator::filter` and `Vec::retain`.
unfoldable pub keep : (Value → Bool) → List Value → List Value
keep test [] = []
keep test (doc ∷ docs) = let rest = keep test docs in if test doc then doc ∷ rest else rest

-- `Iterator::find`.
unfoldable pub find_doc : (Value → Bool) → List Value → Option Value
find_doc test [] = none
find_doc test (doc ∷ docs) = let rest = find_doc test docs in if test doc then some doc else rest

abbrev put_before : Option Value → Option (List Value) → Option (List Value)
put_before none rest = none
put_before (some doc) none = none
put_before (some doc) (some docs) = some (doc ∷ docs)

-- The loop of substitutions, or nothing where one panics.
unfoldable pub substitute_all : Text → List Value → Option (List Value)
unfolding substitute_image kind_is
substitute_all image [] = some []
substitute_all image (doc ∷ docs) =
    put_before (if kind_is doc (codes "Deployment") then substitute_image doc image else some doc)
      (substitute_all image docs)

abbrev pub with_image : Option Text → List Value → Option (List Value)
with_image none docs = some docs
with_image (some image) docs = substitute_all image docs

-- The documents that are applied: those of cert-manager are left out, and the image is put in.
unfoldable pub prepared : Option Text → List Value → Option (List Value)
unfolding keep substitute_all
prepared image docs =
    with_image image (keep (λ doc. not (api_version_is doc (codes "cert-manager.io"))) docs)

abbrev pub is_namespace : Value → Bool
is_namespace doc = kind_is doc (codes "Namespace")

-- The patch that sets the bundle.
abbrev pub ca_bundle_patch : Text → Value
ca_bundle_patch ca_b64 = object (
    field (codes "apiVersion") (string (codes "admissionregistration.k8s.io/v1")) (
      field (codes "kind") (string (codes "ValidatingWebhookConfiguration")) (
        field (codes "metadata") (object (field (codes "name") (string webhook_config_name) end)) (
          field (codes "webhooks")
            (array (
              cons
                (object (
                  field (codes "name") (string webhook_name) (
                    field (codes "clientConfig")
                      (object (field (codes "caBundle") (string ca_b64) end)) end)))
                nil))
            end))))

module _ (site : Site) where
  open site use {World, ApiResource}

  -- The operator `?` at a result and at an option with its message.
  abbrev pub or_err : {A : Type 0} → Result Text A → Task World A
  or_err (ok a) = pure a
  or_err (err e) = fail e

  abbrev pub ok_or : {A : Type 0} → Text → Option A → Task World A
  ok_or what none = fail what
  ok_or what (some a) = pure a

  -- A panic ends the task without a result.
  abbrev pub unless_panic : {A : Type 0} → Option A → Task World A
  unless_panic none w = none
  unless_panic (some a) w = some (ok a, w)

  abbrev check_names : List (Option Text) → Task World Unit
  check_names [] = pure tt
  check_names (name ∷ names) = fail (
      codes "cluster is not empty — found "
      ++ (codes (show_ℕ (length (name ∷ names)))
          ++ (codes " pod(s) in the default namespace ("
              ++ (join_with (codes ", ") (map (name_or (codes "<unnamed>")) (name ∷ names))
                  ++ codes
                      "). This tool actively degrades the webhook installation and must only be run against a clean, throwaway cluster."))))

  unfoldable pub check_cluster_clean : Task World Unit
  check_cluster_clean = do answer ← call site.list_default; names ← or_err answer; check_names names

  abbrev after_discovery :
      GroupVersionKind → Option Text → Result Text (ApiResource × Scope) → ApiResource × Scope
  after_discovery kind namespace (ok found) = found
  after_discovery kind namespace (err e) =
      (site.from_gvk kind, if is_some namespace then namespaced else clustered)

  unfoldable pub resolve_api_resource :
      GroupVersionKind → Option Text → Task World (ApiResource × Scope)
  resolve_api_resource kind namespace = do
    answer ← call (site.pinned_kind kind)
    pure (after_discovery kind namespace answer)

  -- The namespace that a document is applied in.
  abbrev place : Scope → Option Text → Option Text
  place namespaced namespace = some (name_or (codes "default") namespace)
  place clustered namespace = none

  unfoldable pub apply_doc : Value → Task World Unit
  unfolding find_field parse_gvk resolve_api_resource
  apply_doc doc = do
    api_version ←
        ok_or (codes "manifest document missing apiVersion") (text_at (codes "apiVersion") doc)
    kind ← ok_or (codes "manifest document missing kind") (text_at (codes "kind") doc)
    let metadata = member (codes "metadata") doc
    name ←
        ok_or (codes "manifest document missing metadata.name")
          (and_then metadata (text_at (codes "name")))
    let namespace = and_then metadata (text_at (codes "namespace"))
    resolved ← resolve_api_resource (parse_gvk api_version kind) namespace
    answer ← call (site.apply resolved.0 (place resolved.1 namespace) name doc)
    or_err answer

  -- The loop over the documents.
  unfoldable pub apply_all : List Value → Task World Unit
  unfolding apply_doc
  apply_all [] = pure tt
  apply_all (doc ∷ docs) = do _ ← apply_doc doc; apply_all docs

  -- `docs` is what the embedded manifests parse to.
  unfoldable pub apply_manifests : List (Result Text Value) → Option Text → Task World Unit
  unfolding parse_docs prepared find_doc kind_is apply_all keep
  apply_manifests manifests image = do
    parsed ← or_err (parse_docs manifests)
    docs ← unless_panic (prepared image parsed)
    namespace_doc ←
        ok_or (codes "rendered webhook manifests are missing the Namespace document")
          (find_doc is_namespace docs)
    _ ← apply_doc namespace_doc
    apply_all (keep (λ doc. not (is_namespace doc)) docs)

  unfoldable pub ensure_namespace : Task World Unit
  ensure_namespace = do answer ← call (site.apply_namespace webhook_namespace); or_err answer

  abbrev pub tls_secret : Text × Text → Secret
  tls_secret pair = record {
    name = tls_secret_name;
    namespace = webhook_namespace;
    tls_crt = record { bytes = site.encode pair.0 };
    tls_key = record { bytes = site.encode pair.1 };
    type_ = codes "kubernetes.io/tls";
  }

  unfoldable pub create_tls_secret : Task World Text
  unfolding ensure_namespace
  create_tls_secret = do
    _ ← ensure_namespace
    signed ← call (site.self_sign service_dns_names)
    pair ← or_err signed
    answer ← call (site.apply_secret (tls_secret pair))
    _ ← or_err answer
    pure pair.0

  unfoldable pub inject_ca_bundle : Text → Task World Unit
  inject_ca_bundle cert_pem = do
    answer ←
        call
          (site.apply_webhook_config webhook_config_name (ca_bundle_patch (site.encode cert_pem)))
    or_err answer
