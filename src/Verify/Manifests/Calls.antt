-- ===== src/Verify/Manifests/Calls.antt =====
-- The application of one document by bin/erw-verify/setup.rs, at whatever its one call answers.
use emergency_ration_webhook.Common.{Option, Option-cases, inl, inr}
use emergency_ration_webhook.Common.Result.{Result, err, and_then}
use emergency_ration_webhook.Common.Task.{Meets}
use emergency_ration_webhook.Common.Text.{codes, Text}
use emergency_ration_webhook.Verify.Manifests.{Value, member, text_at, GroupVersionKind}
use emergency_ration_webhook.Verify.Manifests.Install.{
  Site, resolve_api_resource, or_err, apply_doc,
}

module _ (site : Site) where
  open site use {World, ApiResource}

  -- An error before the calls leaves the world; else the kind is looked up and the document applied.
  pub apply_doc-Meets :
      (Q : Result Text Unit → World → Type 0) (doc : Value) (w : World)
      → ((e : Text) → Q (err e) w)
      → ((found : ApiResource) (kind : GroupVersionKind) (namespace : Option Text) (name : Text)
          → let (answer, v) = site.apply found namespace name doc (site.pinned_kind kind w).1 in
            Meets Q (or_err site answer v))
      → Meets Q (apply_doc site doc w)
  unfolding apply_doc resolve_api_resource
  apply_doc-Meets Q doc w early applied = elim (Option-cases (text_at (codes "apiVersion") doc)) [
    | inl missing ↦ rw missing (early _)
    | inr (api_version, e) ↦ elim (Option-cases (text_at (codes "kind") doc)) [
      | inl missing ↦ rw (e, missing) (early _)
      | inr (kind, f) ↦
          elim (Option-cases (and_then (member (codes "metadata") doc) (text_at (codes "name")))) [
            | inl missing ↦ rw (e, f, missing) (early _)
            | inr (name, g) ↦ rw (e, f, g) (applied _ _ _ name)
          ]
    ]
  ]
