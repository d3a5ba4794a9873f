-- ===== src/Verify/Manifests/Order.antt =====
-- The order in which bin/erw-verify/setup.rs applies the manifests.
use mathlib.Core.List.{append_assoc, append-nil}
use emergency_ration_webhook.Common.{
  Option, none, some, List, [], ◌∷◌, ◌++◌, Bool, true, false, not, Bool-cases, Option-cases, inl,
  inr, ◌≡◌, ◌∙◌, refl, sym, ap,
}
use emergency_ration_webhook.Common.Lists.{All}
use emergency_ration_webhook.Common.Result.{Result, ok, err, Result-cases}
use emergency_ration_webhook.Common.Task.{Outcome, Meets, Split, continue-Meets}
use emergency_ration_webhook.Common.Text.{codes, Text}
use emergency_ration_webhook.Verify.Manifests.{Value, api_version_is, GroupVersionKind, parse_docs}
use emergency_ration_webhook.Verify.Manifests.Paths.{first_container}
use emergency_ration_webhook.Verify.Manifests.Puts.{Keyed}
use emergency_ration_webhook.Verify.Manifests.Prepared.{Ours, keep-All, prepared-Ours}
use emergency_ration_webhook.Verify.Manifests.Calls.{apply_doc-Meets}
use emergency_ration_webhook.Verify.Manifests.Install.{
  Site, keep, find_doc, prepared, is_namespace, or_err, apply_doc, apply_all, apply_manifests,
}

-- The Namespace document first, then the others in their order; nothing without one.
abbrev in_order : Option Value → List Value → List Value
in_order none rest = []
in_order (some doc) rest = doc ∷ rest

abbrev pub plan : List Value → List Value
plan docs = in_order (find_doc is_namespace docs) (keep (λ doc. not (is_namespace doc)) docs)

-- The server records what is applied: a document that is taken comes last, a refused one does not.
pub record IsRecorded (site : Site) : Type 0 where
  pub applied : site.World → List Value
  pub apply-ok :
      (kind : site.ApiResource) (namespace : Option Text) (name : Text) (doc : Value)
      (w : site.World)
      → (site.apply kind namespace name doc w).0 ≡ ok tt
      → applied (site.apply kind namespace name doc w).1 ≡ applied w ++ doc ∷ []
  pub apply-err :
      (kind : site.ApiResource) (namespace : Option Text) (name : Text) (doc : Value)
      (w : site.World) (e : Text)
      → (site.apply kind namespace name doc w).0 ≡ err e
      → applied (site.apply kind namespace name doc w).1 ≡ applied w
  pub pinned-keeps :
      (kind : GroupVersionKind) (w : site.World) → applied (site.pinned_kind kind w).1 ≡ applied w

module _ (site : Site) (recorded : IsRecorded site) where
  open site use {World}
  open recorded use {applied}

  -- What was applied before, then a first part of the list, all of it on success.
  abbrev pub Follows : List Value → List Value → Result Text Unit → World → Type 0
  Follows base docs r v =
      (done rest : List Value) × (done ++ rest ≡ docs)
      × (applied v ≡ base ++ done)
      × (r ≡ ok tt → rest ≡ [])

  abbrev Wrote : Value → World → Result Text Unit → World → Type 0
  Wrote doc w (ok done) v = applied v ≡ applied w ++ doc ∷ []
  Wrote doc w (err e) v = applied v ≡ applied w

  answer-Wrote :
      (kind : site.ApiResource) (namespace : Option Text) (name : Text) (doc : Value) (w u : World)
      → applied u ≡ applied w
      → Meets (Wrote doc w) (
          or_err site
            (site.apply kind namespace name doc u).0
            (site.apply kind namespace name doc u).1)
  answer-Wrote kind namespace name doc w u h =
      elim (Result-cases (site.apply kind namespace name doc u).0) [
        | inl (done, e) ↦ rw e (recorded.apply-ok kind namespace name doc u e ∙ ap (◌++ doc ∷ []) h)
        | inr (x, e) ↦ rw e (recorded.apply-err kind namespace name doc u x e ∙ h)
      ]

  apply_doc-Wrote : (doc : Value) (w : World) → Meets (Wrote doc w) (apply_doc site doc w)
  apply_doc-Wrote doc w =
      apply_doc-Meets site (Wrote doc w) doc w (λ e. refl)
        (λ found kind namespace name.
          answer-Wrote found namespace name doc w _ (recorded.pinned-keeps kind w))

  first-Split :
      (base all sent : List Value) (doc : Value) (docs : List Value) (w : World)
      → sent ++ doc ∷ docs ≡ all
      → applied w ≡ base ++ sent
      → (o : Outcome World Unit) → Meets (Wrote doc w) o
      → Meets (Split (λ a u. applied u ≡ applied w ++ doc ∷ []) (Follows base all)) o
  first-Split base all sent doc docs w h k none m = m
  first-Split base all sent doc docs w h k (some (ok done, v)) m = m
  first-Split base all sent doc docs w h k (some (err e, v)) m =
      (sent, doc ∷ docs, h, m ∙ k, λ same. cc)

  -- The rest of the documents, after a first part of the list.
  apply_all-Follows :
      (base all sent docs : List Value) (w : World)
      → sent ++ docs ≡ all
      → applied w ≡ base ++ sent
      → Meets (Follows base all) (apply_all site docs w)
  unfolding apply_all
  apply_all-Follows base all sent [] w h k = (sent, [], h, k, λ e. refl)
  apply_all-Follows base all sent (doc ∷ docs) w h k =
      continue-Meets (λ a u. applied u ≡ applied w ++ doc ∷ []) (Follows base all)
        (apply_doc site doc w) (λ done. apply_all site docs)
        (first-Split base all sent doc docs w h k _ (apply_doc-Wrote doc w))
        (λ done u e.
          apply_all-Follows base all (sent ++ doc ∷ []) docs u
            (append_assoc sent (doc ∷ []) docs ∙ h)
            (e ∙ ap (◌++ doc ∷ []) k ∙ append_assoc base sent (doc ∷ [])))

find_doc-All :
    (P : Value → Type 0) (test : Value → Bool) (docs : List Value) {doc : Value}
    → All P docs
    → find_doc test docs ≡ some doc
    → P doc × (test doc ≡ true)
unfolding find_doc
find_doc-All P test [] h e = cc
find_doc-All P test (d ∷ docs) {doc = doc} (h, hs) e = elim (Bool-cases (test d)) [
  | inl found ↦ let one : d ≡ doc = cc (rw found at e) in rw (← one) (h, found)
  | inr other ↦ find_doc-All P test docs hs (rw other at e)
]

pub plan-All : (P : Value → Type 0) (docs : List Value) → All P docs → All P (plan docs)
plan-All P docs held = elim (Option-cases (find_doc is_namespace docs)) [
  | inl missing ↦ rw missing tt
  | inr (doc, found) ↦
      rw found ((find_doc-All P is_namespace docs held found).0, keep-All P _ docs held)
]

-- Where the manifests parse and what stands at the first container of each document, if there is one,
-- is an object or null, the documents to apply are there, and none is of cert-manager. The run then
-- ends; it applies the first Namespace, then the documents that are no Namespace in their order, up to
-- the first failure, and all of them when it succeeds.
pub apply_manifests-Follows :
    (site : Site) (recorded : IsRecorded site) (manifests : List (Result Text Value))
    (parsed : List Value) (image : Option Text) (w : site.World)
    → parse_docs manifests ≡ ok parsed
    → All (Keyed first_container) parsed
    → (docs : List Value) × (prepared image parsed ≡ some docs)
      × All (λ doc. api_version_is doc (codes "cert-manager.io") ≡ false) (plan docs)
      × Meets
          (Follows site recorded (recorded.applied w) (plan docs))
          (apply_manifests site manifests image w)
unfolding apply_manifests apply_all
apply_manifests-Follows site recorded manifests parsed image w p keyed =
    let (docs, e, ours) = prepared-Ours image parsed keyed in
    (
      docs,
      e,
      plan-All Ours docs ours,
      elim (Option-cases (find_doc is_namespace docs)) [
        | inl missing ↦ rw (p, e, missing) ([], [], refl, sym (append-nil _), λ same. refl)
        | inr (doc, found) ↦
            rw (p, e, found)
              (apply_all-Follows site recorded (recorded.applied w) _ []
                (doc ∷ keep (λ d. not (is_namespace d)) docs) w refl (sym (append-nil _)))
      ],
    )
