-- ===== src/Verify/Manifests/Trust.antt =====
-- The certificate of bin/erw-verify/setup.rs: the Secret that the webhook serves from and the bundle
-- that the API server trusts.
use emergency_ration_webhook.Common.{
  Option, some, List, [], ◌∷◌, Bool, false, not, Option-cases, inl, inr, ◌≡◌, ◌≢◌, ◌∙◌, refl, sym,
}
use emergency_ration_webhook.Common.Lists.{All}
use emergency_ration_webhook.Common.Result.{Result, ok, Result-cases, and_then, is_some_and}
use emergency_ration_webhook.Common.Task.{Meets, continue-eq-ok}
use emergency_ration_webhook.Common.Text.{codes, Text, same}
use emergency_ration_webhook.Verify.Manifests.{
  Value, string, find_field, as_str, kind_is, GroupVersionKind, parse_docs,
}
use emergency_ration_webhook.Verify.Manifests.Paths.{Turn, key, index, at, first_container}
use emergency_ration_webhook.Verify.Manifests.Puts.{Keyed}
use emergency_ration_webhook.Verify.Manifests.Calls.{apply_doc-Meets}
use emergency_ration_webhook.Verify.Manifests.Prepared.{prepared-Header}
use emergency_ration_webhook.Verify.Manifests.Order.{plan, plan-All}
use emergency_ration_webhook.Verify.Manifests.Install.{
  Secret, Site, is_namespace, find_doc, apply_doc, apply_all, apply_manifests, ensure_namespace,
  create_tls_secret, inject_ca_bundle, service_dns_names, webhook_config_name, ca_bundle_patch,
  tls_secret, keep,
}

-- Where the patch of the configuration holds the bundle.
abbrev pub bundle_path : List Turn
bundle_path =
    key (codes "webhooks") ∷ index 0 ∷ key (codes "clientConfig") ∷ key (codes "caBundle") ∷ []

-- The server keeps what it took last: of a Secret the text of `tls.crt` as the request carried it, the
-- base64 form of the bytes in memory, and of the configuration the patch. The application of a document
-- of another kind, and the other calls, leave the Secret. A reader of either undoes base64 once.
pub record Holds (site : Site) : Type 0 where
  pub tls_crt : site.World → Option Text
  pub patch : site.World → Option Value
  pub decode : Text → Option Text
  pub decode-encode : (t : Text) → decode (site.encode t) ≡ some t
  pub secret-ok :
      (s : Secret) (w : site.World)
      → (site.apply_secret s w).0 ≡ ok tt
      → tls_crt (site.apply_secret s w).1 ≡ some (site.encode (s.tls_crt).bytes)
  pub patch-ok :
      (name : Text) (p : Value) (w : site.World)
      → (site.apply_webhook_config name p w).0 ≡ ok tt
      → patch (site.apply_webhook_config name p w).1 ≡ some p
  pub patch-keeps :
      (name : Text) (p : Value) (w : site.World)
      → tls_crt (site.apply_webhook_config name p w).1 ≡ tls_crt w
  pub pinned-keeps :
      (kind : GroupVersionKind) (w : site.World) → tls_crt (site.pinned_kind kind w).1 ≡ tls_crt w
  pub apply-keeps :
      (found : site.ApiResource) (namespace : Option Text) (name : Text) (doc : Value)
      (w : site.World)
      → kind_is doc (codes "Secret") ≡ false
      → tls_crt (site.apply found namespace name doc w).1 ≡ tls_crt w

module _ (site : Site) (holds : Holds site) where
  open site use {World}
  open holds use {tls_crt, patch}

  abbrev NoSecret : Value → Type 0
  NoSecret doc = kind_is doc (codes "Secret") ≡ false

  abbrev is_secret : Option Value → Bool
  is_secret kind = is_some_and (and_then kind as_str) (λ k. same k (codes "Secret"))

  Keeps : World → Result Text Unit → World → Type 0
  Keeps w r v = tls_crt v ≡ tls_crt w

  apply_doc-Keeps :
      (doc : Value) (w : World) → NoSecret doc → Meets (Keeps w) (apply_doc site doc w)
  unfolding Keeps
  apply_doc-Keeps doc w other =
      apply_doc-Meets site (Keeps w) doc w (λ e. refl)
        (λ found kind namespace name.
          let u = (site.pinned_kind kind w).1 in
          let kept =
            holds.apply-keeps found namespace name doc u other ∙ holds.pinned-keeps kind w in
          elim (Result-cases (site.apply found namespace name doc u).0) [
            | inl (done, e) ↦ rw e kept
            | inr (x, e) ↦ rw e kept
          ])

  apply_all-keeps :
      (docs : List Value) (w : World) {v : World}
      → All NoSecret docs
      → apply_all site docs w ≡ some (ok tt, v)
      → tls_crt v ≡ tls_crt w
  unfolding apply_all Keeps
  apply_all-keeps [] w h e = cc
  apply_all-keeps (doc ∷ docs) w {v = v} (h, hs) e =
      let (a, u, f, rest) = continue-eq-ok (apply_doc site doc w) (λ done. apply_all site docs) e in
      let kept : tls_crt u ≡ tls_crt w = rw f at (apply_doc-Keeps doc w h) in
      apply_all-keeps docs u hs rest ∙ kept

  apply_manifests-keeps :
      (manifests : List (Result Text Value)) (parsed : List Value) (image : Option Text) (w : World)
      {v : World}
      → parse_docs manifests ≡ ok parsed
      → All (Keyed first_container) parsed
      → All NoSecret parsed
      → apply_manifests site manifests image w ≡ some (ok tt, v)
      → tls_crt v ≡ tls_crt w
  unfolding apply_manifests apply_all kind_is
  apply_manifests-keeps manifests parsed image w {v = v} p keyed others h =
      let (docs, e, kept) =
        prepared-Header (λ version kind. is_secret kind ≡ false) image parsed keyed others in
      let planned : All NoSecret (plan docs) = plan-All NoSecret docs kept in
      elim (Option-cases (find_doc is_namespace docs)) [
        | inl missing ↦ cc (rw (p, e, missing) at h)
        | inr (doc, found) ↦
            apply_all-keeps (doc ∷ keep (λ d. not (is_namespace d)) docs) w (rw found at planned)
              (rw (p, e, found) at h)
      ]

  create_tls_secret-Holds :
      (w : World) {cert : Text} {v : World}
      → create_tls_secret site w ≡ some (ok cert, v)
      → tls_crt v ≡ some (site.encode (site.encode cert))
  unfolding create_tls_secret
  create_tls_secret-Holds w {cert = cert} {v = v} h =
      let (_, u, _, h₁) = continue-eq-ok (ensure_namespace site w) _ h in
      elim (Result-cases (site.self_sign service_dns_names u).0) [
        | inr (x, e) ↦ cc (rw e at h₁)
        | inl (pair, e) ↦
            let u' = (site.self_sign service_dns_names u).1 in
            let s = tls_secret site pair in
            elim (Result-cases (site.apply_secret s u').0) [
              | inr (x, f) ↦ cc (rw (e, f) at h₁)
              | inl (done, f) ↦
                  let same_world : (site.apply_secret s u').1 ≡ v = cc (rw (e, f) at h₁) in
                  let same_cert : pair.0 ≡ cert = cc (rw (e, f) at h₁) in
                  rw (← same_world, ← same_cert) (holds.secret-ok s u' f)
            ]
      ]

  inject_ca_bundle-Holds :
      (cert : Text) (w : World) {v : World}
      → inject_ca_bundle site cert w ≡ some (ok tt, v)
      → (tls_crt v ≡ tls_crt w) × (patch v ≡ some (ca_bundle_patch (site.encode cert)))
  unfolding inject_ca_bundle
  inject_ca_bundle-Holds cert w {v = v} h =
      let p = ca_bundle_patch (site.encode cert) in
      elim (Result-cases (site.apply_webhook_config webhook_config_name p w).0) [
        | inr (x, e) ↦ cc (rw e at h)
        | inl (done, e) ↦
            let same_world : (site.apply_webhook_config webhook_config_name p w).1 ≡ v =
              cc (rw e at h) in
            (
              rw (← same_world) (holds.patch-keeps webhook_config_name p w),
              rw (← same_world) (holds.patch-ok webhook_config_name p w e),
            )
      ]

-- Where no document of the manifests is a Secret, what stands at the first container of each, if there
-- is one, is an object or null, and base64 changes the certificate: after the certificate was created,
-- the manifests applied and the bundle injected, each with success, what a reader decodes of the
-- bundle is the certificate, and what it decodes of the Secret is the base64 form of the certificate,
-- so that the two differ.
pub create_tls_secret-encodes_twice :
    (site : Site) (holds : Holds site) (manifests : List (Result Text Value)) (parsed : List Value)
    (image : Option Text) (cert : Text) (w₀ w₁ w₂ w₃ : site.World)
    → parse_docs manifests ≡ ok parsed
    → All (Keyed first_container) parsed
    → All (λ doc. kind_is doc (codes "Secret") ≡ false) parsed
    → site.encode cert ≢ cert
    → create_tls_secret site w₀ ≡ some (ok cert, w₁)
    → apply_manifests site manifests image w₁ ≡ some (ok tt, w₂)
    → inject_ca_bundle site cert w₂ ≡ some (ok tt, w₃)
    → (held bundle : Text) × (p : Value) × (holds.tls_crt w₃ ≡ some held)
      × (holds.patch w₃ ≡ some p)
      × (at bundle_path p ≡ some (string bundle))
      × (holds.decode bundle ≡ some cert)
      × (holds.decode held ≡ some (site.encode cert))
      × (holds.decode held ≢ holds.decode bundle)
unfolding at find_field
create_tls_secret-encodes_twice site holds manifests parsed image cert w₀ w₁ w₂ w₃ parse keyed
      others changed created applied injected =
    let crt = create_tls_secret-Holds site holds w₀ created in
    let kept =
      apply_manifests-keeps site holds manifests parsed image w₁ parse keyed others applied in
    let (same_secret, patched) = inject_ca_bundle-Holds site holds cert w₂ injected in
    let once = holds.decode-encode cert in
    let twice = holds.decode-encode (site.encode cert) in
    (
      site.encode (site.encode cert),
      site.encode cert,
      _,
      same_secret ∙ kept ∙ crt,
      patched,
      refl,
      once,
      twice,
      λ same_bytes. changed (some_eq (sym twice ∙ same_bytes ∙ once)),
    )
  where
    some_eq : {A : Type 0} {a b : A} → ◌≡◌ {A = Option A} (some a) (some b) → a ≡ b
    some_eq h = cc
